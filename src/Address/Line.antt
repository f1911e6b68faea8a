-- ===== src/Address/Line.antt =====
-- The line of an address (src/vi/address.cpp: find_stc, get_line, set_line). What the editor holds
-- is a type `E`; reading it is a parameter. The search flags that get_line sets are left out.
pub mod Laws
use wx_extension.Prelude.{
  ℕ, ◌+◌, Bool, not, Option, none, some, [], Text, if◌then◌else◌, ℤ, pos, negsuc, leb_ℤ, ltb_ℤ,
  eqb_ℤ,
}

-- match: the pattern of an address '/…/' or '?…?', and whether it is the first kind.
-- search: SearchInTarget from one position to another, with the position of the match.
-- find_stream: ex_stream's find, and the line it is at.
pub record View (E : Type 0) : Type 0 where
  pub line_count : E → ℤ
  pub calculator : Text → E → ℤ
  pub match : Text → Option (Text × Bool)
  pub is_visual : E → Bool
  pub current_pos : E → ℕ
  pub text_length : E → ℕ
  pub search : Text → ℕ → ℕ → E → Option ℕ
  pub line_from_position : ℕ → E → ℕ
  pub find_stream : Text → Bool → E → Option ℕ

pub record Address : Type 0 where
  pub address : Text
  pub line : ℤ

abbrev pub line_count_unknown : ℤ
line_count_unknown = negsuc 0

abbrev pub address_of_line : ℤ → Address
address_of_line n = record { address = []; line = n }

abbrev pub address_of : Text → Address
address_of t = record { address = t; line = pos 0 }

module _ {E : Type 0} where
  unfoldable pub find_stc : View E → Text → Bool → E → ℤ
  find_stc v t forward e =
      let cur = v.current_pos e in
      elim (if forward then v.search t cur (v.text_length e) e else v.search t cur 0 e) [
        | some p ↦ pos (v.line_from_position p e + 1)
        | none ↦ elim (if forward then v.search t 0 cur e else v.search t (v.text_length e) cur e) [
          | some p ↦ pos (v.line_from_position p e + 1)
          | none ↦ pos 0
        ]
      ]

  unfoldable pub find_in_stream : View E → Text → Bool → E → ℤ
  find_in_stream v t forward e = elim (v.find_stream t forward e) [
    | some l ↦ pos (l + 1)
    | none ↦ pos 0
  ]

  unfoldable pub get_line : View E → Address → E → ℤ
  unfolding find_stc find_in_stream
  get_line v a e = if leb_ℤ (pos 1) a.line then a.line else elim (v.match a.address) [
    | some (t, forward) ↦
        if not (v.is_visual e) then find_in_stream v t forward e else find_stc v t forward e
    | none ↦
        let sum = v.calculator a.address e in
        if ltb_ℤ sum (pos 0)
        then pos 1
        else if ltb_ℤ (v.line_count e) sum
        then (if eqb_ℤ (v.line_count e) line_count_unknown then sum else v.line_count e)
        else sum
  ]

  unfoldable pub set_line : View E → ℤ → Address → E → Address
  set_line v n a e =
      if ltb_ℤ (v.line_count e) n
      then record a { line = v.line_count e }
      else if ltb_ℤ n (pos 1)
      then record a { line = pos 1 }
      else record a { line = n }
