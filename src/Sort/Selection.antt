-- ===== src/Sort/Selection.antt =====
-- Sorting a selection (src/factory/sort.cpp: selection, selection_other, selection_block). What the
-- component does is a parameter; an exception of sort_string is `none`. The undo is left out.
use wx_extension.Prelude.{
  ℕ, suc, ◌+◌, Bool, true, false, ◌||◌, Option, none, some, List, [], ◌∷◌, ◌++◌, Text,
  if◌then◌else◌, ◌==◌, ltb, length, newline, ℤ, negsuc, eqb_ℤ, ◌-ℤ◌, pos_part,
}
use wx_extension.Sort.{Sort, sort_string}

-- part: the start, the end and the text of one selection of a rectangle.
pub record Part : Type 0 where
  pub start : ℕ
  pub end : ℕ
  pub text : Text

-- selection_start and block_start are -1 where there is none. extend: CharRightRectExtend and
-- LineDownRectExtend, from the position, as often as they are called.
pub record Selected (E : Type 0) : Type 0 where
  pub is_rectangle : E → Bool
  pub selection_start : E → ℤ
  pub selection_end : E → ℕ
  pub is_empty_selection : E → Bool
  pub selected_text : E → Text
  pub eol : E → Text
  pub replace_selection : Text → E → E
  pub set_selection : ℕ → ℕ → E → E
  pub block_start : E → ℤ
  pub parts : E → List Part
  pub replace_part : ℕ → Text → E → E
  pub column : ℕ → E → ℤ
  pub line_from_position : ℕ → E → ℤ
  pub extend : ℕ → ℤ → ℤ → E → E

-- sort(m_sort_t): the position and the length are the default ones
abbrev pub with_defaults : Sort → Sort
with_defaults s = record s { pos = 0; len = none }

-- The text of the parts, each with a newline; `none` where one is empty.
unfoldable pub block_text : List Part → Option Text
block_text [] = some []
block_text (p ∷ ps) =
    if p.start == p.end
    then none
    else elim (block_text ps) [ none ↦ none | some t ↦ some (p.text ++ newline ∷ t) ]

module _ {E : Type 0} (x : Selected E) (tokens : Text → Text → List Text) where
  -- `none` is an exception, and then nothing is replaced.
  unfoldable pub selection_other : Sort → E → Option (E × Bool)
  selection_other s e =
      if eqb_ℤ (x.selection_start e) (negsuc 0)
        || (ltb (x.selection_end e) s.pos || x.is_empty_selection e)
      then some (e, false)
      else elim (sort_string tokens (with_defaults s) (x.selected_text e) (x.eol e)) [
        | none ↦ none
        | some t ↦
            let start = pos_part (x.selection_start e) in
            some (x.set_selection start (start + length t) (x.replace_selection t e), true)
      ]

  -- Part `i` and those behind it take the tokens, as long as there are both.
  unfoldable pub replace_parts : ℕ → List Part → List Text → E → E
  replace_parts i [] ts e = e
  replace_parts i (p ∷ ps) [] e = e
  replace_parts i (p ∷ ps) (t ∷ ts) e = replace_parts (suc i) ps ts (x.replace_part i t e)

  unfoldable pub selection_block : Sort → E → Option (E × Bool)
  unfolding block_text replace_parts
  selection_block s e =
      if eqb_ℤ (x.block_start e) (negsuc 0)
      then some (e, false)
      else elim (block_text (x.parts e)) [
        | none ↦ some (e, false)
        | some selection ↦ elim (sort_string tokens (with_defaults s) selection (newline ∷ [])) [
          | none ↦ none
          | some t ↦
              let start = pos_part (x.block_start e) in
              let columns = x.column (x.selection_end e) e -ℤ x.column start e in
              let lines =
                x.line_from_position (x.selection_end e) e -ℤ x.line_from_position start e in
              some (
                x.extend start columns lines
                    (replace_parts 0 (x.parts e) (tokens t (newline ∷ [])) e),
                true,
              )
        ]
      ]

  unfoldable pub selection : Sort → E → E × Bool
  unfolding selection_other selection_block
  selection s e = elim (if x.is_rectangle e then selection_block s e else selection_other s e) [
    | some r ↦ r
    | none ↦ (e, false)
  ]
