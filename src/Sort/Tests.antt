-- ===== src/Sort/Tests.antt =====
-- Sorting a few lines (src/factory/sort.cpp).
use wx_extension.Prelude.{
  ◌≡◌, [], ◌∷◌, ◌++◌, refl, true, false, none, some, Text, List, map, concat, newline,
  if◌then◌else◌,
}
use mathlib.Core.List.{Perm}
use wx_extension.Sort.{Sort, key_of, sort_string}
use wx_extension.Sort.Laws.{key_order, sort_string-ascending}
use wx_extension.Sort.Laws.Order.{ascending}
use wx_extension.Sort.Columns.{all_reach, with_columns, sort_string-columns}

abbrev down : Sort
down = record { descending = true; unique = false; pos = 1; len = none }

-- each char is a line
abbrev chars : Text → Text → List Text
chars t sep = map (λ c. b'x' ∷ c ∷ []) t

abbrev end_of_line : Text
end_of_line = newline ∷ []

abbrev input : Text
input = b'b' ∷ b'c' ∷ b'a' ∷ []

sort_string-ascending_example :
    (l : List Text) × (sort_string chars down input end_of_line ≡ some (concat l))
    × Perm l (map (λ t. t ++ end_of_line) (chars input end_of_line))
    × (ascending (key_order true) (map (key_of down) l) ≡ true)
sort_string-ascending_example = sort_string-ascending chars down input end_of_line refl refl refl

abbrev column : Sort
column = record { descending = false; unique = true; pos = 1; len = some 1 }

sort_string-columns_example :
    let lines = map (λ t. t ++ end_of_line) (chars input end_of_line) in
    (ks : List Text) × Perm ks (map (key_of column) lines)
    × (ascending (key_order false) ks ≡ true)
    × (sort_string chars column input end_of_line
        ≡ (if all_reach 1 lines then some (with_columns 1 1 lines ks) else none))
sort_string-columns_example = sort_string-columns chars column 1 input end_of_line refl refl
