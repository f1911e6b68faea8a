-- ===== src/Completion/Tests.antt =====
-- Names in scopes (src/stc/scope.cpp).
use wx_extension.Prelude.{ℕ, none, [], ◌∷◌, Text, take, ◌≡◌, refl, eq_text, lookup}
use wx_extension.Completion.{
  Scope, entry, past, innermost, find, iterator, is_end, entry_or_past, sync, check_levels,
  class_name,
}
use wx_extension.Completion.Laws.{is_found, moves, kept, find-moves}

abbrev a : Text
a = b'a' ∷ []

abbrev b : Text
b = b'b' ∷ []

-- a in the levels 0 and 2, b in the level 1
abbrev three_levels : Scope ℕ
three_levels = record { filters = ((a, 1) ∷ []) ∷ ((b, 2) ∷ []) ∷ ((a, 3) ∷ []) ∷ []; it = past 2 }

find-moves_example :
    (let o = innermost a (take (kept 3 (1 ∷ 4 ∷ [])) three_levels.filters) in
      let r = find 2 a (sync 0 2 (moves 0 (1 ∷ 4 ∷ []) three_levels)) in
      (r.0.it ≡ entry_or_past 2 a o) × (r.1 ≡ is_found o))
find-moves_example = find-moves 0 (1 ∷ 4 ∷ []) 2 b'a' [] three_levels

-- The level 2 was left, so the name of the level 0 is found.
find_outer : (find 2 a (sync 0 2 (sync 0 1 three_levels))).0.it ≡ entry 0 a
unfolding find iterator innermost sync check_levels lookup eq_text
find_outer = refl

-- A name that is not found, asked for while the iterator stands at another: the end of a map is
-- read.
class_name_past : class_name (λ n. []) 2 (b'c' ∷ []) (record three_levels { it = entry 2 a }) ≡ none
unfolding class_name find iterator innermost lookup eq_text is_end
class_name_past = refl
