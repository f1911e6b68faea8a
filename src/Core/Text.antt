-- ===== src/Core/Text.antt =====
-- The functions on texts of src/core/util.cpp. `trim` is boost::algorithm::trim_copy, a parameter.
-- A position that is not found (npos) is `none`. A set is the list of its members in order.
pub mod Laws
use wx_extension.Prelude.{
  ℕ, zero, suc, ◌+◌, ◌-◌, Bool, true, false, not, ◌&&◌, ◌||◌, Option, none, some, List, [], ◌∷◌,
  ◌++◌, Text, length, take, drop, ltb, leb, ◌==◌, if◌then◌else◌, newline, space,
}
use wx_extension.Prelude.{is_prefix}

-- find and rfind of a char
unfoldable pub find_char : ℕ → Text → Option ℕ
find_char c [] = none
find_char c (d ∷ t) = elim (d == c) [
  | true ↦ some 0
  | false ↦ elim (find_char c t) [ some i ↦ some (suc i) | none ↦ none ]
]

unfoldable pub rfind_char : ℕ → Text → Option ℕ
rfind_char c [] = none
rfind_char c (d ∷ t) = elim (rfind_char c t) [
  | some i ↦ some (suc i)
  | none ↦ if d == c then some 0 else none
]

abbrev pub position : ℕ → Bool → Text → Option ℕ
position c first t = if first then find_char c t else rfind_char c t

unfoldable pub after : Text → ℕ → Bool → Text
after t c first = elim (position c first t) [ none ↦ t | some i ↦ drop (i + 1) t ]

unfoldable pub before : Text → ℕ → Bool → Text
before t c first = elim (position c first t) [ none ↦ t | some i ↦ take i t ]

-- auto_complete_text(text, v, s): the result, and `s` behind the call. The loop has counted `n`
-- matches.
unfoldable pub complete_from : Text → List Text → ℕ → Text → ℕ × Text
complete_from t [] n s = (n, s)
complete_from t (x ∷ v) n s =
    complete_from t v (if is_prefix t x then n + 1 else n) (if is_prefix t x then x else s)

unfoldable pub auto_complete_text : Text → List Text → Text → Bool × Text
unfolding complete_from
auto_complete_text t v s = let r = complete_from t v 0 s in (r.0 == 1, r.1)

abbrev pub dots : Text
dots = b'.' ∷ b'.' ∷ b'.' ∷ []

abbrev pub control_key : Text
control_key = 9 ∷ b'C' ∷ b't' ∷ b'r' ∷ b'l' ∷ b'+' ∷ []

abbrev pub is_empty : Text → Bool
is_empty [] = true
is_empty (c ∷ t) = false

unfoldable pub ellipsed : Text → Text → Bool → Text
ellipsed t control ellipse =
    t
    ++ ((if ellipse then dots else []) ++ (if is_empty control then [] else control_key ++ control))

abbrev pub contains : ℕ → Text → Bool
contains c [] = false
contains c (d ∷ t) = d == c || contains c t

-- find_first_of(chars, start) and find_last_of(chars, start)
unfoldable pub find_first_of : Text → ℕ → Text → Option ℕ
find_first_of chars start [] = none
find_first_of chars zero (d ∷ t) = elim (contains d chars) [
  | true ↦ some 0
  | false ↦ elim (find_first_of chars zero t) [ some i ↦ some (suc i) | none ↦ none ]
]
find_first_of chars (suc start) (d ∷ t) = elim (find_first_of chars start t) [
  | some i ↦ some (suc i)
  | none ↦ none
]

unfoldable pub find_last_of : Text → ℕ → Text → Option ℕ
find_last_of chars start [] = none
find_last_of chars zero (d ∷ t) = if contains d chars then some 0 else none
find_last_of chars (suc start) (d ∷ t) = elim (find_last_of chars start t) [
  | some i ↦ some (suc i)
  | none ↦ if contains d chars then some 0 else none
]

-- first_of(text, chars, start_pos, flags), with the two flags.
unfoldable pub first_of : Text → Text → ℕ → Bool → Bool → Text
unfolding find_first_of find_last_of
first_of t chars start from_end before_match =
    let pos = if not from_end then find_first_of chars start t else find_last_of chars start t in
    elim pos [
      | none ↦ if not before_match then [] else t
      | some i ↦ if not before_match then drop (i + 1) t else take i t
    ]

unfoldable pub get_endoftext : Text → ℕ → Text
get_endoftext t max_chars =
    if ltb max_chars (length t)
    then (if ltb (4 + length t - max_chars) (length t)
        then dots ++ drop (4 + length t - max_chars) t
        else drop (length t - max_chars) t)
    else t

abbrev pub count_char : ℕ → Text → ℕ
count_char c [] = 0
count_char c (d ∷ t) = (if d == c then 1 else 0) + count_char c t

abbrev pub line_count : Text → ℕ
line_count t = let c = count_char newline t + 1 in if not (c == 1) then c else count_char 13 t + 1

unfoldable pub get_number_of_lines : (Text → Text) → Text → Bool → ℕ
get_number_of_lines trim t trimmed =
    if is_empty t then 0 else line_count (if trimmed then trim t else t)

-- The text that was gathered so far is the first argument.
unfoldable pub string_set_from : Text → List Text → ℕ → Text → Text
string_set_from a [] min_size prefix = a
string_set_from a (b ∷ kset) min_size prefix =
    string_set_from
      (if leb min_size (length b) && is_prefix prefix b then a ++ (b ++ space ∷ []) else a) kset
      min_size prefix

unfoldable pub get_string_set : List Text → ℕ → Text → Text
unfolding string_set_from
get_string_set kset min_size prefix = string_set_from [] kset min_size prefix

unfoldable pub is_brace : ℕ → Bool
is_brace c =
    c == b'['
    || (c == b']'
        || (c == b'(' || (c == b')' || (c == b'{' || (c == b'}' || (c == b'<' || c == b'>'))))))

abbrev pub isspace : ℕ → Bool
isspace c = c == space || (leb 9 c && leb c 13)

unfoldable pub is_codeword_separator : ℕ → Bool
unfolding is_brace
is_codeword_separator c =
    isspace c
    || (is_brace c
        || (c == b',' || (c == b';' || (c == b':' || (c == b'+' || (c == b'-' || c == b'@'))))))

unfoldable pub quoted : Text → Text
quoted t = 39 ∷ (t ++ 39 ∷ [])

-- get_word(text): the token, and `text` behind the call. `first_token` is the first token of
-- boost's char_separator " \t", and `trim_left` is boost's.
unfoldable pub get_word : (Text → Option Text) → (Text → Text) → Text → Text × Text
get_word first_token trim_left t = elim (first_token t) [
  | none ↦ ([], trim_left t)
  | some w ↦ (w, trim_left (drop (length w) t))
]
