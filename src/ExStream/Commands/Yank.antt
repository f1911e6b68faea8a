-- ===== src/ExStream/Commands/Yank.antt =====
-- The command yank (src/vi/ex-stream.cpp), and an edit that follows it.
use wx_extension.Prelude.{
  ℕ, ◌-◌, ◌≡◌, ◌≢◌, true, Option, some, List, [], ◌++◌, Text, length, arith, refl, ◌∙◌, ap, concat,
  ◌==◌, if◌then◌else◌,
}
use wx_extension.Macros.Registers.{Registers, get_register, set_register}
use wx_extension.ExStream.Line.{Regex, StreamLine, Range, yank, is_ok, new_action, new_yank}
use wx_extension.ExStream.Scan.Yank.{scan-yank, yanked, preceding}
use wx_extension.ExStream.Scan.YankRanges.{
  IsPlain, appended, yanked-range, get_register-appended, get_register-written,
}
use wx_extension.ExStream.Scan.Split.{split}
use wx_extension.ExStream.State.{State, Source, content}
use wx_extension.ExStream.Navigate.Laws.{HasRoom}
use wx_extension.ExStream.Commands.{
  stream_lines, stream_to_temp, process, returned, yank_lines, erase_lines,
}
use wx_extension.ExStream.Commands.Edits.{IsReady, lines_of, scanned}
use wx_extension.ExStream.Commands.Results.{IsWithin, IsWithin-is_ok, erase_lines-IsEdited}

-- What a yank leaves alone, with what it changes: the registers, and what it writes to the
-- temporary file.
pub record IsYanked (s s' : State) (registers : Registers) (leaked : Text) : Type 0 where
  pub registers_lem : s'.registers ≡ registers
  pub temp : s'.temp ≡ s.temp ++ leaked
  pub content_lem : content s' ≡ content s
  pub source : s'.source ≡ s.source
  pub modified : s'.is_modified ≡ s.is_modified
  pub line_no : s'.line_no ≡ s.line_no
  pub line_size : s'.line_size ≡ s.line_size
  pub buffer : length s'.current_line ≡ length s.current_line

scanned-IsYanked :
    (s : State) (unread leaked : Text) (registers : Registers) (buffer : List ℕ)
    → length buffer ≡ length s.current_line
    → IsYanked s
        (record (scanned s unread registers buffer) { temp = s.temp ++ leaked })
        registers
        leaked
scanned-IsYanked s unread leaked registers buffer l = ground arith

module _ (regex : Regex) where
  stream_lines-yank :
      (sl : StreamLine) (out : Text) (s : State)
      → sl.action ≡ yank
      → HasRoom s
      → (sl' : StreamLine) × (unread : Text) × (buffer : List ℕ) × (stream_lines regex sl out s
          ≡ some (
            sl',
            out ++ concat (preceding sl (lines_of s)),
            scanned s unread (yanked sl s.registers (lines_of s)) buffer,
          ))
        × (length buffer ≡ length s.current_line)
        × (sl'.action ≡ yank)
  unfolding stream_lines
  stream_lines-yank sl out s y h =
      let (sl', o', unread, e, f, r, l, y') =
        scan-yank regex s.line_size (content s) 0 sl
          (record { file = out; registers = s.registers; buffer = s.current_line }) y h.room
          h.positive in
      (sl', unread, o'.buffer, rw (e, f, r), l, y')

  stream_to_temp-yank :
      (range : Range) (sl sl' : StreamLine) (text : Text) (s t : State)
      → is_ok range ≡ true
      → stream_lines regex sl s.temp s ≡ some (sl', text, t)
      → sl'.action ≡ yank
      → stream_to_temp regex range sl s ≡ some (returned true (record t { temp = text }))
  unfolding stream_to_temp
  stream_to_temp-yank range sl sl' text s t ok e y = ground arith

  process-returned :
      (range : Range) (sl : StreamLine) (next : StreamLine → State → Option State) (s t : State)
      {w : Source}
      → s.source ≡ some w
      → stream_to_temp regex range sl s ≡ some (returned true t)
      → process regex range sl next s ≡ some (true, t)
  unfolding process
  process-returned range sl next s t o e = ground arith

-- The state in which the register is empty already.
abbrev cleared : ℕ → State → State
cleared name s = record s { registers = (set_register name [] s.registers).0 }

cleared-content : (name : ℕ) (s : State) → content (cleared name s) ≡ content s
cleared-content name s = ground arith

yank_lines-process :
    (regex : Regex) (range : Range) (name : ℕ) (s : State) {w : Source}
    → s.source ≡ some w
    → yank_lines regex range name s
      ≡ process regex range
          (record (new_action yank range) { register = name })
          (λ _ s'. some s')
          (cleared name s)
unfolding yank_lines new_yank
yank_lines-process regex range name s o = ground arith

get_register-cleared :
    (name j : ℕ) (r : Registers) (xs : List Text)
    → IsPlain name
    → j ≢ b'*'
    → j ≢ 34
    → get_register j (appended name (set_register name [] r).0 xs)
      ≡ (if j == name then concat xs else get_register j r)
get_register-cleared name j r xs h nc nq = ground (
  arith,
  get_register-appended name j (set_register name [] r).0 xs h nc nq,
  get_register-written name j [] r h nc nq,
  get_register-written name name [] r h h.not_clipboard h.not_quote,
)

module _ (regex : Regex) (range : Range) (name : ℕ) (s : State)
    (before within behind : List Text) where
  -- For a range within the lines, and a register whose name is a lower case letter, a digit, `%` or
  -- `.`: yank returns true, the register holds exactly the lines of the range, all other registers
  -- but the clipboard's hold what they held, the content of the stream stays, and the lines before
  -- the range are added to the temporary file.
  pub yank_lines-IsYanked :
      IsReady s
      → IsWithin range (lines_of s) before within behind
      → IsPlain name
      → (s' : State) × (yank_lines regex range name s ≡ some (true, s'))
        × IsYanked s s' s'.registers (concat before)
        × ((j : ℕ)
            → j ≢ b'*'
            → j ≢ 34
            → get_register j s'.registers
              ≡ (if j == name then concat within else get_register j s.registers))
  unfolding new_action
  yank_lines-IsYanked ready h plain =
      let sl : StreamLine = record (new_action yank range) { register = name } in
      let t = cleared name s in
      let (sl', unread, buffer, e, l, y) =
        stream_lines-yank regex sl s.temp t refl (ground (arith, ready.has_room)) in
      let (regs, before_lem) =
        yanked-range sl t.registers before within behind (range.end_line - 1) refl
          (ground (arith, h.start)) (ground (arith, h.stop)) (omega (arith, h.stop, h.some_line))
          h.some_line in
      let leaked = concat (preceding sl (lines_of t)) in
      let u : State = record (scanned t unread (yanked sl t.registers (lines_of t)) buffer) {
        temp = s.temp ++ leaked;
      } in
      let k = scanned-IsYanked t unread leaked (yanked sl t.registers (lines_of t)) buffer l in
      let lk : leaked ≡ concat before =
        ap concat {x = preceding sl (lines_of t)} {y = before} (rw h.parts before_lem) in
      let rk : u.registers ≡ appended name t.registers within = k.registers_lem ∙ rw h.parts regs in
      (
        u,
        yank_lines-process regex range name s ready.is_open.1
            ∙ process-returned regex range sl (λ _ s'. some s') t u ready.is_open.1
                (stream_to_temp-yank regex range sl sl' (s.temp ++ leaked) t
                  (scanned t unread (yanked sl t.registers (lines_of t)) buffer) (IsWithin-is_ok h)
                  e y),
        record {
          registers_lem = refl;
          temp = k.temp ∙ ap (λ x. s.temp ++ x) lk;
          content_lem = k.content_lem;
          source = k.source;
          modified = k.modified;
          line_no = k.line_no;
          line_size = k.line_size;
          buffer = k.buffer;
        },
        (λ j nc nq.
            ap (get_register j) rk ∙ get_register-cleared name j s.registers within plain nc nq),
      )

-- An erase that follows a yank on the same stream: the lines that stand before the yanked range
-- come once more, in front of what the erase should leave.
pub erase_lines-yank_lines :
    (regex : Regex) (range range' : Range) (name : ℕ) (s : State)
    (before within behind before' within' behind' : List Text)
    → IsReady s
    → s.temp ≡ []
    → IsWithin range (lines_of s) before within behind
    → IsWithin range' (lines_of s) before' within' behind'
    → IsPlain name
    → (s₁ : State) × (s₂ : State) × (yank_lines regex range name s ≡ some (true, s₁))
      × (erase_lines regex range' s₁ ≡ some (true, s₂))
      × (content s₂ ≡ concat before ++ (concat before' ++ concat behind'))
erase_lines-yank_lines regex range range' name s before within behind before' within' behind' ready
      clean h h' plain =
    let (s₁, e, k, _) = yank_lines-IsYanked regex range name s before within behind ready h plain in
    let same : lines_of s₁ ≡ lines_of s = λ i. split (k.line_size i) [] (k.content_lem i) in
    let ready' : IsReady s₁ = record {
      has_room = ground (arith, k, ready.has_room);
      is_open = (ready.is_open.0, k.source ∙ ready.is_open.1);
    } in
    let h'' : IsWithin range' (lines_of s₁) before' within' behind' = record {
      parts = same ∙ h'.parts;
      start = h'.start;
      stop = h'.stop;
      some_line = h'.some_line;
    } in
    let (s₂, e₂, d, _) = erase_lines-IsEdited regex range' s₁ before' within' behind' ready' h'' in
    (
      s₁,
      s₂,
      e,
      e₂,
      d.content_lem
          ∙ ap (λ x. x ++ (concat before' ++ concat behind'))
              (k.temp ∙ ap (λ x. x ++ concat before) clean),
    )
