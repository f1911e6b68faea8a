-- ===== src/Ex/Expansion.antt =====
-- Markers and registers in the text of a command (src/vi/util.cpp: marker_and_register_expansion).
-- Reading the char behind the last one is `none`.
pub mod Laws
use wx_extension.Prelude.{
  ℕ, zero, suc, ◌+◌, ◌/◌, ◌%◌, Bool, true, false, ◌||◌, Option, none, some, [], ◌∷◌, ◌++◌, Text,
  if◌then◌else◌, ◌==◌, ◌>>=◌,
}
use wx_extension.Macros.Registers.{Registers, get_register}

-- std::to_string of a number that is not negative; the fuel is more than its digits.
unfoldable pub digits_from : ℕ → ℕ → Text → Text
digits_from zero n t = t
digits_from (suc k) n t =
    let t' = (48 + n % 10) ∷ t in
    let more = digits_from k (n / 10) t' in if n / 10 == 0 then t' else more

abbrev pub to_text : ℕ → Text
to_text n = digits_from (suc n) n []

-- marker_line is `none` where the line is negative.
pub record Source : Type 0 where
  pub marker_line : ℕ → Option ℕ
  pub registers : Registers
  pub filename : Text

abbrev pub control_r : ℕ
control_r = 18

abbrev pub quote : ℕ
quote = 39

unfoldable pub register_value : Source → ℕ → Text
register_value s r = if r == b'%' then s.filename else get_register r s.registers

-- What comes before the rest of the output, and whether it is a change.
abbrev pub before_rest : Text → Bool → Option (Text × Bool) → Option (Text × Bool)
before_rest u changed none = none
before_rest u changed (some (v, b)) = some (u ++ v, changed || b)

-- The loop: the output, and whether it is changed.
unfoldable pub expansion : Source → Text → Option (Text × Bool)
unfolding register_value
expansion s [] = some ([], false)
expansion s (c ∷ []) = if c == quote || c == control_r then none else some (c ∷ [], false)
expansion s (c ∷ d ∷ t) =
    let behind = expansion s t in
    let next = expansion s (d ∷ t) in
    if c == quote
    then elim (s.marker_line d) [
      | some line ↦ before_rest (to_text (line + 1)) true behind
      | none ↦ before_rest (c ∷ []) false next
    ]
    else if c == control_r
    then before_rest (register_value s d) true behind
    else before_rest (c ∷ []) false next

-- The text behind the call.
unfoldable pub marker_and_register_expansion : Source → Text → Option Text
unfolding expansion
marker_and_register_expansion s t = expansion s t >>= λ r. some (if r.1 then r.0 else t)
