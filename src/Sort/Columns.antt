-- ===== src/Sort/Columns.antt =====
-- Sorting a column of the lines (src/factory/sort.cpp).
use wx_extension.Prelude.{
  ℕ, suc, ◌+◌, Bool, true, false, ◌&&◌, none, some, List, [], ◌∷◌, ◌++◌, map, Text, if◌then◌else◌,
  leb, length, take, drop, ◌≡◌, refl, ap, ◌∙◌, arith, append-nil, length-append,
}
use mathlib.Core.List.{Perm, perm_middle, reverse, reverse-cons}
use mathlib.Core.List.Perm
use mathlib.Core.Path.{subst}
use wx_extension.Sort.{
  Sort, key_of, insert_key, fill_keys, get_lines, replace_column, all_space, in_order, sort_string,
}
use wx_extension.Sort.Laws.{
  key_order, insert_key-perm, ascending-insert_key, in_order-perm, in_order-ascending,
}
use wx_extension.Sort.Laws.Order.{text_le, ascending}

fill_keys-perm : (s : Sort) (ls ms : List Text) → Perm (fill_keys s ls ms) (map (key_of s) ls ++ ms)
unfolding fill_keys
fill_keys-perm s [] ms = Perm.rfl
fill_keys-perm s (l ∷ ls) ms = Perm.trans (fill_keys-perm s ls (insert_key (key_of s l) ms)) (
    Perm.trans (Perm.append_left (map (key_of s) ls) (insert_key-perm (key_of s l) ms))
      (perm_middle (map (key_of s) ls) ms))

fill_keys-ascending :
    (s : Sort) (ls ms : List Text)
    → ascending text_le ms ≡ true
    → ascending text_le (fill_keys s ls ms) ≡ true
unfolding fill_keys
fill_keys-ascending s [] ms h = h
fill_keys-ascending s (l ∷ ls) ms h =
    fill_keys-ascending s ls (insert_key (key_of s l) ms) (ascending-insert_key (key_of s l) ms h)

-- The lines with the column from `p`, `n` chars wide, replaced by the keys.
unfoldable pub with_columns : ℕ → ℕ → List Text → List Text → Text
with_columns p n (l ∷ ls) (k ∷ ks) = (take p l ++ (k ++ drop (p + n) l)) ++ with_columns p n ls ks
with_columns p n _ _ = []

abbrev pub all_reach : ℕ → List Text → Bool
all_reach p [] = true
all_reach p (l ∷ ls) = leb p (length l) && all_reach p ls

get_lines-with_columns :
    (p n : ℕ) (ls ks : List Text)
    → length ks ≡ length ls
    → get_lines p n ls ks ≡ (if all_reach p ls then some (with_columns p n ls ks) else none)
unfolding get_lines replace_column with_columns
get_lines-with_columns p n [] [] h = refl
get_lines-with_columns p n [] (k ∷ ks) h = ground arith
get_lines-with_columns p n (l ∷ ls) [] h = ground arith
get_lines-with_columns p n (l ∷ ls) (k ∷ ks) h = ground (arith, get_lines-with_columns p n ls ks)

length-insert_key : (k : Text) (m : List Text) → length (insert_key k m) ≡ suc (length m)
unfolding insert_key
length-insert_key k [] = refl
length-insert_key k (i ∷ m) = ground (arith, length-insert_key k m)

length-fill_keys :
    (s : Sort) (ls ms : List Text) → length (fill_keys s ls ms) ≡ length ls + length ms
unfolding fill_keys
length-fill_keys s [] ms = omega arith
length-fill_keys s (l ∷ ls) ms =
    omega
      (arith, length-fill_keys s ls (insert_key (key_of s l) ms), length-insert_key (key_of s l) ms)

length-in_order : (d : Bool) (l : List Text) → length (in_order d l) ≡ length l
length-in_order false l = refl
length-in_order true [] = refl
length-in_order true (x ∷ l) =
    ap length (reverse-cons x l)
    ∙ omega (arith, length-append (reverse l) (x ∷ []), length-in_order true l)

-- Sorting a column of `n` chars, for a separator of whitespace: where every line of the input, with
-- its separator, reaches the column, the result is the lines in the order of the input, in which
-- the columns are replaced by the keys of the lines, in an order where they ascend, or descend if
-- that is asked for; doubles are kept. Where a line is shorter, the call throws an exception.
pub sort_string-columns :
    (tokens : Text → Text → List Text) (s : Sort) (n : ℕ) (input sep : Text)
    → all_space sep ≡ true
    → s.len ≡ some n
    → let lines = map (λ t. t ++ sep) (tokens input sep) in
      (ks : List Text) × Perm ks (map (key_of s) lines)
      × (ascending (key_order s.descending) ks ≡ true)
      × (sort_string tokens s input sep
          ≡ (if all_reach s.pos lines then some (with_columns s.pos n lines ks) else none))
unfolding sort_string
sort_string-columns tokens s n input sep a e =
    let d = s.descending in
    let lines = map (λ t. t ++ sep) (tokens input sep) in
    let ks = in_order d (fill_keys s lines []) in
    (
      ks,
      Perm.trans (in_order-perm d (fill_keys s lines [])) (
          subst (Perm (fill_keys s lines [])) (append-nil (map (key_of s) lines))
            (fill_keys-perm s lines [])),
      in_order-ascending d (fill_keys s lines []) (fill_keys-ascending s lines [] refl),
      ground (
        arith,
        get_lines-with_columns s.pos n lines ks
            (length-in_order d (fill_keys s lines []) ∙ omega (arith, length-fill_keys s lines [])),
      ),
    )
