-- ===== src/ExStream/Navigate.antt =====
-- Moving over the stream (src/vi/ex-stream.cpp: get_next_line, get_previous_line, filter_line,
-- goto_line). A write behind the line buffer is `none`.
pub mod Laws
pub mod Reach
use wx_extension.Prelude.{
  ℕ, zero, suc, ◌+◌, ◌-◌, ◌^◌, ◌%◌, Bool, true, false, ◌&&◌, ◌||◌, Option, none, some, [], ◌∷◌,
  ◌++◌, Text, length, drop, ℤ, pos, negsuc, pos_part, sub_ℕ, ◌-ℤ◌, ◌+ℤ◌, ltb, ltb_ℤ, eqb_ℤ, ◌==◌,
  newline, if◌then◌else◌, ◌>>=◌,
}
use wx_extension.ExStream.Line.{copy_at}
use wx_extension.ExStream.Stream.{Input, clear, seekg, tellg, getline, read}
use wx_extension.ExStream.State.{State, default_line_size, unknown, content, input, set_input}

abbrev pub on_input : (Input → Input) → State → State
on_input f s = set_input (f (input s)) s

-- The chars and a terminator, at the start of the line buffer.
unfoldable pub put_line : Text → State → Option State
unfolding copy_at
put_line chars s = do
  mem ← copy_at 0 (chars ++ 0 ∷ []) s.current_line
  some (record s { current_line = mem })

-- The part of get_next_line behind `getline`, which left the stream as `i`.
unfoldable pub line_read : Input → State → Bool × State
unfolding clear
line_read i s =
    if i.fail
    then (if i.eof
        then (false, if ltb 0 i.count then record s { last_line_no = s.line_no +ℤ pos 1 } else s)
        else (true, record (on_input clear s) { block_mode = true; line_no = s.line_no +ℤ pos 1 }))
    else (true, record s { line_no = s.line_no +ℤ pos 1 })

unfoldable pub get_next_line : State → Option (Bool × State)
get_next_line s =
    let r = getline s.line_size (content s) (input s) in
    (do s' ← put_line r.0 (set_input r.1 s); some (line_read r.1 s'))

-- if (m_line_no > 0) m_line_no--;
abbrev pub line_up : State → State
line_up s = if ltb_ℤ (pos 0) s.line_no then record s { line_no = s.line_no -ℤ pos 1 } else s

-- What strncpy takes of a text: the chars before a terminator, padded by the caller's bound.
abbrev pub until_nul : Text → Text
until_nul [] = []
until_nul (c ∷ t) = if c == 0 then [] else c ∷ until_nul t

-- The last newline of a text, as the backwards loop finds it.
unfoldable pub last_newline : ℕ → Text → Option ℕ
last_newline k [] = none
last_newline k (c ∷ t) = elim (last_newline (suc k) t) [
  | some i ↦ some i
  | none ↦ if c == newline then some k else none
]

-- static_cast<int> of a size_t
abbrev pub int_of_size : ℕ → ℤ
int_of_size n = let w = n % 2 ^ 32 in if ltb w (2 ^ 31) then pos w else sub_ℕ w (2 ^ 32)

-- A position as a size_t.
abbrev pub size_of : ℤ → ℕ
size_of (pos n) = n
size_of (negsuc n) = 2 ^ 64 - 1 - n

-- start - 1, as a size_t
abbrev pub size_before : ℕ → ℕ
size_before start = (start + 2 ^ 64 - 1) % 2 ^ 64

-- `chars` is the part of m_buffer behind `start`, up to its end.
unfoldable pub filter_line : ℕ → Text → ℕ → State → Option State
unfolding put_line seekg clear
filter_line start chars spos s = do
  s' ← put_line (until_nul chars) s
  some (
      line_up (
        if spos == 0
        then record (on_input (λ i. seekg 0 (clear i)) s') { line_size = size_before start }
        else on_input (λ i. seekg (spos + start) (clear i)) s'))

-- The part behind the read: what was read at `spos` decides.
unfoldable pub previous_line : Text → ℕ → State → Option (Bool × State)
unfolding filter_line last_newline put_line seekg clear
previous_line [] spos s = some (false, s)
previous_line (c ∷ t) spos s =
    let chars = c ∷ t in
    elim (last_newline 0 chars) [
      | some start ↦ (do s' ← filter_line start (drop (start + 1) chars) spos s; some (true, s'))
      | none ↦ (do
        s' ← put_line (until_nul chars) s
        let s₁ = line_up (on_input (λ i. seekg spos (clear i)) s')
        some (
            if s.line_size == default_line_size
            then (
              ltb_ℤ (int_of_size (s.line_size) -ℤ pos 1) (int_of_size (length chars)),
              record s₁ { block_mode = true },
            )
            else (ltb_ℤ (int_of_size s.line_size) (int_of_size (length chars)), s₁)))
    ]

-- Where the read starts: m_current_line_size chars back, or at the start.
unfoldable pub seek_back : State → ℕ × State
unfolding seekg tellg
seek_back s =
    let p = tellg (input s) in
    if ltb_ℤ (pos 0) (p -ℤ int_of_size s.line_size)
    then (let s' = on_input (seekg (pos_part p - s.line_size)) s in
        (pos_part (tellg (input s')), s'))
    else (0, on_input (seekg 0) s)

unfoldable pub get_previous_line : State → Option (Bool × State)
unfolding seek_back read previous_line
get_previous_line s =
    let (spos, s₁) = seek_back s in
    let (chars, i) = read s.line_size (content s₁) (input s₁) in
    previous_line chars spos (set_input i s₁)

-- while (m_line_no < no && get_next_line());
unfoldable pub forward : ℕ → ℕ → State → Option State
forward zero target s = some s
forward (suc rounds) target s = elim (ltb_ℤ s.line_no (pos target)) [
  | false ↦ some s
  | true ↦ get_next_line s >>= λ r. elim r.0 [ true ↦ forward rounds target r.1 | false ↦ some r.1 ]
]

-- while (no < m_line_no && get_previous_line());
unfoldable pub backward : ℕ → ℕ → State → Option State
backward zero target s = some s
backward (suc rounds) target s = elim (ltb_ℤ (pos target) s.line_no) [
  | false ↦ some s
  | true ↦
      get_previous_line s >>= λ r. elim r.0 [ true ↦ backward rounds target r.1 | false ↦ some r.1 ]
]

-- A successful round of a loop moves by one line, so the distance bounds the rounds.
abbrev pub go_forward : ℕ → State → Option State
go_forward target s = forward (pos_part (pos target -ℤ s.line_no)) target s

abbrev pub go_backward : ℕ → State → Option State
go_backward target s = backward (pos_part (s.line_no -ℤ pos target)) target s

unfoldable pub goto_line : ℕ → State → Option State
goto_line target s = elim s.source [
  | none ↦ some s
  | some _ ↦
      if eqb_ℤ (pos target) s.line_no
      then some s
      else if target == 0
          || (ltb target 100 && ltb_ℤ (pos target) s.line_no)
          || ltb_ℤ (pos target) (s.line_no -ℤ pos 1000)
      then go_forward target (record (on_input (λ i. seekg 0 (clear i)) s) { line_no = unknown })
      else if ltb_ℤ (pos target) s.line_no
      then go_backward target (on_input clear s)
      else go_forward target s
]
