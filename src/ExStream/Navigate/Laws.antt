-- ===== src/ExStream/Navigate/Laws.antt =====
-- Moving forward over the stream (src/vi/ex-stream.cpp: get_next_line, goto_line), and what it
-- touches.
use wx_extension.Prelude.{
  ℕ, zero, suc, ◌+◌, ◌-◌, ◌<◌, ◌≤◌, ◌≡◌, Bool, some, List, [], ◌∷◌, ◌++◌, Text, length, drop, arith,
  refl, ◌∙◌, ap, length-append, length-drop, pos, ltb_ℤ, Bool-cases, Option-cases, eqb_ℤ, inl, inr,
  ◌+ℤ◌, if◌then◌else◌,
}
use wx_extension.ExStream.Stream.{Input, clear, seekg, read_line, getline}
use wx_extension.ExStream.State.{State, unknown, content, input, set_input}
use wx_extension.ExStream.Navigate.{
  put_line, line_read, get_next_line, forward, on_input, goto_line,
}

-- A line fits the buffer.
pub record HasRoom (s : State) : Type 0 where
  pub positive : 0 < s.line_size
  pub room : s.line_size ≤ length s.current_line

-- What reading leaves alone.
pub record Reads (s s' : State) : Type 0 where
  pub source : s'.source ≡ s.source
  pub file : s'.file ≡ s.file
  pub work : s'.work ≡ s.work
  pub temp : s'.temp ≡ s.temp
  pub is_modified : s'.is_modified ≡ s.is_modified
  pub registers : s'.registers ≡ s.registers
  pub markers : s'.markers ≡ s.markers
  pub message : s'.message ≡ s.message
  pub line_size : s'.line_size ≡ s.line_size
  pub buffer : length s'.current_line ≡ length s.current_line

length-read_line : (limit : ℕ) (t : Text) → length (read_line limit t).0 ≤ limit
unfolding read_line
length-read_line limit [] = omega arith
length-read_line zero (c ∷ t) = ground arith
length-read_line (suc limit) (c ∷ t) = ground (arith, length-read_line limit t)

length-getline : (n : ℕ) (t : Text) (i : Input) → length (getline n t i).0 ≤ n - 1
unfolding getline
length-getline n t i = ground (arith, length-read_line (n - 1) (drop i.at t))

length-copy_at :
    (t : Text) (mem : List ℕ)
    → length t ≤ length mem
    → length (t ++ drop (0 + length t) mem) ≡ length mem
length-copy_at t mem h =
    ground (arith, length-append t (drop (0 + length t) mem), length-drop (0 + length t) mem)

put_line-Reads :
    (chars : Text) (s : State)
    → length chars < length s.current_line
    → (s' : State) × (put_line chars s ≡ some s') × Reads s s' × (s'.line_no ≡ s.line_no)
unfolding put_line
put_line-Reads chars s h = (
  record s {
    current_line = (chars ++ 0 ∷ []) ++ drop (0 + length (chars ++ 0 ∷ [])) s.current_line;
  },
  ground (arith, length-append chars (0 ∷ [])),
  ground (arith, length-append chars (0 ∷ []), length-copy_at (chars ++ 0 ∷ []) s.current_line),
  refl,
)

pub Reads-trans : {s t u : State} → Reads s t → Reads t u → Reads s u
Reads-trans h k = ground arith

pub HasRoom-Reads : {s t : State} → Reads s t → HasRoom s → HasRoom t
HasRoom-Reads h r = ground arith

set_input-Reads : (i : Input) (s : State) → Reads s (set_input i s)
set_input-Reads i s = ground arith

line_read-Reads : (i : Input) (s : State) → Reads s (line_read i s).1
unfolding line_read
line_read-Reads i s = ground arith

line_no-set_input : (i : Input) (s : State) → (set_input i s).line_no ≡ s.line_no
line_no-set_input i s = ground arith

line_no-line_read :
    (i : Input) (s : State)
    → (line_read i s).1.line_no ≡ (if (line_read i s).0 then s.line_no +ℤ pos 1 else s.line_no)
unfolding line_read
line_no-line_read i s = ground arith

-- Where the line buffer holds at least a line size of chars, and that is not 0: get_next_line gives
-- a result, touches nothing but the get position, the line buffer and the numbers and flags of
-- lines, and adds one to the line number if it returns true, and else leaves it.
pub get_next_line-Reads :
    (s : State)
    → HasRoom s
    → (r : Bool × State) × (get_next_line s ≡ some r)
      × Reads s r.1
      × (r.1.line_no ≡ (if r.0 then s.line_no +ℤ pos 1 else s.line_no))
unfolding get_next_line
get_next_line-Reads s h =
    let got = getline s.line_size (content s) (input s) in
    let (s', e, reads, l) = put_line-Reads got.0 (set_input got.1 s) (
      omega (
        arith,
        length-getline s.line_size (content s) (input s),
        (set_input-Reads got.1 s).buffer,
        h.room,
        h.positive,
      )) in
    (
      line_read got.1 s',
      rw e,
      Reads-trans (set_input-Reads got.1 s) (Reads-trans reads (line_read-Reads got.1 s')),
      line_no-line_read got.1 s'
          ∙ ap (λ n. if (line_read got.1 s').0 then n +ℤ pos 1 else n)
              (l ∙ line_no-set_input got.1 s),
    )

pub Reads-refl : (s : State) → Reads s s
Reads-refl s = record {
  source = refl;
  file = refl;
  work = refl;
  temp = refl;
  is_modified = refl;
  registers = refl;
  markers = refl;
  message = refl;
  line_size = refl;
  buffer = refl;
}

pub forward-Reads :
    (rounds target : ℕ) (s : State)
    → HasRoom s
    → (s' : State) × (forward rounds target s ≡ some s') × Reads s s'
unfolding forward
forward-Reads zero target s h = (s, refl, Reads-refl s)
forward-Reads (suc rounds) target s h = elim (Bool-cases (ltb_ℤ s.line_no (pos target))) [
  | inr e ↦ (s, rw (e, forward), Reads-refl s)
  | inl e ↦
      let (r, q, k, l) = get_next_line-Reads s h in
      elim (Bool-cases r.0) [
        | inr b ↦ (r.1, ground arith, k)
        | inl b ↦
            let (s', p, k') = forward-Reads rounds target r.1 (HasRoom-Reads k h) in
            (s', ground arith, Reads-trans k k')
      ]
]

rewind-Reads :
    (s : State) → Reads s (record (on_input (λ i. seekg 0 (clear i)) s) { line_no = unknown })
rewind-Reads s = ground arith

-- Where the line buffer holds at least a line size of chars, and that is not 0: going to line 0
-- gives a result and touches nothing but the get position, the line buffer and the numbers and
-- flags of lines.
pub goto_line-zero : (s : State) → HasRoom s → (s' : State) × (goto_line 0 s ≡ some s') × Reads s s'
unfolding goto_line
goto_line-zero s h =
    let rewound = rewind-Reads s in
    let (s', e, k) =
      forward-Reads 1 0 (record (on_input (λ i. seekg 0 (clear i)) s) { line_no = unknown })
        (HasRoom-Reads rewound h) in
    elim (Option-cases s.source) [
      | inl q ↦ (s, ground arith, Reads-refl s)
      | inr (w, q) ↦ elim (Bool-cases (eqb_ℤ (pos 0) s.line_no)) [
        | inl b ↦ (s, ground arith, Reads-refl s)
        | inr b ↦ (s', ground arith, Reads-trans rewound k)
      ]
    ]
