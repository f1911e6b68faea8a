-- ===== src/Sort.antt =====
-- Sorting lines (src/factory/sort.cpp). boost's tokenizer is a parameter. The containers are lists
-- in the order of their keys, and a new element stands behind its equals, as std::multimap and
-- std::multiset insert it.
pub mod Laws
pub mod Columns
pub mod Selection
mod Tests
use wx_extension.Prelude.{
  ℕ, ◌+◌, Bool, true, false, not, ◌&&◌, ◌||◌, Option, none, some, List, [], ◌∷◌, ◌++◌, map, Text,
  if◌then◌else◌, ◌==◌, ltb, leb, length, take, drop,
}
use mathlib.Core.List.{reverse}
use wx_extension.Core.Text.{isspace}

-- m_sort_t, m_pos and m_len (`none` is npos)
pub record Sort : Type 0 where
  pub descending : Bool
  pub unique : Bool
  pub pos : ℕ
  pub len : Option ℕ

-- operator< of std::string
unfoldable pub text_lt : Text → Text → Bool
text_lt t [] = false
text_lt [] (d ∷ u) = true
text_lt (c ∷ t) (d ∷ u) = ltb c d || (c == d && text_lt t u)

-- substr, for a position that is not behind the end
abbrev pub substr : ℕ → Option ℕ → Text → Text
substr p none t = drop p t
substr p (some n) t = take n (drop p t)

unfoldable pub key_of : Sort → Text → Text
key_of s line = if ltb s.pos (length line) then substr s.pos s.len line else []

abbrev pub Pairs : Type 0
Pairs = List (Text × Text)

-- mm.insert
unfoldable pub insert_multi : Text → Text → Pairs → Pairs
unfolding text_lt
insert_multi k v [] = (k, v) ∷ []
insert_multi k v ((j, w) ∷ m) =
    if text_lt k j then (k, v) ∷ (j, w) ∷ m else (j, w) ∷ insert_multi k v m

-- m.insert
unfoldable pub insert_unique : Text → Text → Pairs → Pairs
unfolding text_lt
insert_unique k v [] = (k, v) ∷ []
insert_unique k v ((j, w) ∷ m) =
    if text_lt k j
    then (k, v) ∷ (j, w) ∷ m
    else if text_lt j k
    then (j, w) ∷ insert_unique k v m
    else (j, w) ∷ m

-- ms.insert
unfoldable pub insert_key : Text → List Text → List Text
unfolding text_lt
insert_key k [] = k ∷ []
insert_key k (j ∷ m) = if text_lt k j then k ∷ j ∷ m else j ∷ insert_key k m

-- The loop over the lines, for the three containers.
unfoldable pub fill : Sort → List Text → Pairs → Pairs
unfolding insert_multi insert_unique key_of
fill s [] m = m
fill s (line ∷ lines) m =
    fill s lines (
      if s.unique
      then insert_unique (key_of s line) line m
      else insert_multi (key_of s line) line m)

unfoldable pub fill_keys : Sort → List Text → List Text → List Text
unfolding insert_key key_of
fill_keys s [] ms = ms
fill_keys s (line ∷ lines) ms = fill_keys s lines (insert_key (key_of s line) ms)

unfoldable pub get_column : Pairs → Text
get_column [] = []
get_column ((k, v) ∷ m) = v ++ get_column m

-- it.replace(m_pos, m_len, key), which throws std::out_of_range behind the end of the line
unfoldable pub replace_column : ℕ → ℕ → Text → Text → Option Text
replace_column p n key line =
    if leb p (length line) then some (take p line ++ (key ++ drop (p + n) line)) else none

-- The keys are as many as the lines.
unfoldable pub get_lines : ℕ → ℕ → List Text → List Text → Option Text
unfolding replace_column
get_lines p n [] keys = some []
get_lines p n (line ∷ lines) [] = none
get_lines p n (line ∷ lines) (key ∷ keys) = elim (replace_column p n key line) [
  | none ↦ none
  | some t ↦ elim (get_lines p n lines keys) [ none ↦ none | some u ↦ some (t ++ u) ]
]

abbrev pub all_space : Text → Bool
all_space [] = true
all_space (c ∷ t) = isspace c && all_space t

abbrev pub in_order {ℓ} : {A : Type ℓ} → Bool → List A → List A
in_order descending l = if descending then reverse l else l

-- sort::string; `none` is an exception.
unfoldable pub sort_string : (Text → Text → List Text) → Sort → Text → Text → Option Text
unfolding fill fill_keys get_column get_lines
sort_string tokens s input sep =
    if not (all_space sep)
    then some input
    else (let lines = map (λ t. t ++ sep) (tokens input sep) in
        elim s.len [
          | none ↦ some (get_column (in_order s.descending (fill s lines [])))
          | some n ↦ get_lines s.pos n lines (in_order s.descending (fill_keys s lines []))
        ])
