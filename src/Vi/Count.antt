-- ===== src/Vi/Count.antt =====
-- The count before a command, and the last command (src/vi/vi.cpp: filter_count,
-- set_last_command, append_insert_command).
use wx_extension.Prelude.{
  ℕ, ◌+◌, ◌-◌, ◌*◌, true, false, not, ◌&&◌, Option, none, some, [], ◌∷◌, ◌++◌, Text, length, drop,
  if◌then◌else◌, ◌==◌, ltb, is_digit, newline,
}
use wx_extension.Core.Text.{contains}
use wx_extension.Vi.Component.{Vi}

abbrev pub escape_key : ℕ
escape_key = 27

-- m_last_commands: what `.` repeats.
abbrev pub last_commands : Text
last_commands =
    b'!' ∷ b'<' ∷ b'>' ∷ b'A' ∷ b'C' ∷ b'D' ∷ b'I' ∷ b'J' ∷ b'O' ∷ b'P' ∷ b'R' ∷ b'S' ∷ b'X' ∷ b'Y'
    ∷ b'a' ∷ b'c' ∷ b'd' ∷ b'i' ∷ b'o' ∷ b'p' ∷ b'r' ∷ b's' ∷ b'x' ∷ b'y' ∷ b'~' ∷ []

-- The decimal digits at the start of a text, and what follows.
unfoldable pub split_digits : Text → Text × Text
split_digits [] = ([], [])
split_digits (c ∷ t) =
    if is_digit c then (c ∷ (split_digits t).0, (split_digits t).1) else ([], c ∷ t)

-- a match of ^([1-9][0-9]*)(.*), where '.' is no line end
unfoldable pub count_match : Text → Option (Text × Text)
unfolding split_digits
count_match [] = none
count_match (c ∷ t) =
    let r = split_digits (c ∷ t) in
    if is_digit c && not (c == b'0') && not (contains newline r.1) && not (contains 13 r.1)
    then some r
    else none

unfoldable pub value_from : ℕ → Text → ℕ
value_from n [] = n
value_from n (c ∷ t) = value_from (n * 10 + (c - b'0')) t

-- std::stoi of digits: `none` if the value is no int
unfoldable pub stoi : Text → Option ℕ
unfolding value_from
stoi t = if ltb (value_from 0 t) (2147483648) then some (value_from 0 t) else none

module _ {E : Type 0} where
  unfoldable pub set_last_command : Text → Vi E → Vi E
  unfolding count_match
  set_last_command t v =
      let rest : Text = elim (count_match t) [ some r ↦ drop (length r.0) t | none ↦ t ] in
      elim rest [
        | [] ↦ v
        | c ∷ _ ↦ if contains c last_commands then record v { last_command = t } else v
      ]

  unfoldable pub append_command : Text → Vi E → Vi E
  append_command t v = record v { insert_command = v.insert_command ++ t }

  -- filter_count(command), and the command behind it; `none` where the product is no int, which is
  -- undefined
  unfoldable pub filter_count : Text → Vi E → Option (Vi E × Text)
  unfolding count_match append_command
  filter_count t v = elim (count_match t) [
    | none ↦ some (v, t)
    | some r ↦ elim (stoi r.0) [
      | none ↦ some (record v { count_present = false }, r.1)
      | some n ↦
          if ltb (v.count * n) (2147483648)
          then some
              (append_command r.0 (record v { count = v.count * n; count_present = true }), r.1)
          else none
    ]
  ]
