-- ===== src/Core/Text/Laws.antt =====
-- What the functions on texts of src/core/util.cpp give.
use wx_extension.Prelude.{
  ℕ, ◌+◌, ◌-◌, ◌≤◌, ◌≡◌, ◌↔◌, Bool, true, false, none, some, List, [], ◌∷◌, ◌++◌, Text, length,
  take, drop, if◌then◌else◌, arith, refl, ap, Option-cases, inl, inr, length-append, length-drop,
}
use wx_extension.Prelude.{is_prefix}
use wx_extension.Core.Text.{
  find_char, rfind_char, after, before, complete_from, contains, get_endoftext, dots,
}

find_char-split :
    (c : ℕ) (t : Text) (i : ℕ)
    → find_char c t ≡ some i
    → (take i t ++ c ∷ drop (i + 1) t ≡ t) × (contains c (take i t) ≡ false)
unfolding find_char
find_char-split c [] i e = ground arith
find_char-split c (d ∷ t) i e = elim (Option-cases (find_char c t)) [
  | inl n ↦ ground arith
  | inr (j, h) ↦ ground (arith, find_char-split c t j h)
]

rfind_char-none : (c : ℕ) (t : Text) → rfind_char c t ≡ none → contains c t ≡ false
unfolding rfind_char
rfind_char-none c [] e = refl
rfind_char-none c (d ∷ t) e = ground (arith, rfind_char-none c t)

rfind_char-split :
    (c : ℕ) (t : Text) (i : ℕ)
    → rfind_char c t ≡ some i
    → (take i t ++ c ∷ drop (i + 1) t ≡ t) × (contains c (drop (i + 1) t) ≡ false)
unfolding rfind_char
rfind_char-split c [] i e = ground arith
rfind_char-split c (d ∷ t) i e = elim (Option-cases (rfind_char c t)) [
  | inl n ↦ ground (arith, rfind_char-none c t n)
  | inr (j, h) ↦ ground (arith, rfind_char-split c t j h)
]

find_char-none : (c : ℕ) (t : Text) → find_char c t ≡ none → contains c t ≡ false
unfolding find_char
find_char-none c [] e = refl
find_char-none c (d ∷ t) e = elim (Option-cases (find_char c t)) [
  | inl n ↦ ground (arith, find_char-none c t n)
  | inr (j, h) ↦ ground arith
]

-- Of a text that has the char `c`, before, the char and after are the whole text again, for its
-- first and for its last occurrence: the part before the first one and the part after the last one
-- have no `c`.
pub before-after :
    (t : Text) (c : ℕ) (first : Bool)
    → contains c t ≡ true
    → (before t c first ++ c ∷ after t c first ≡ t)
      × (contains c (if first then before t c first else after t c first) ≡ false)
unfolding before after
before-after t c true h = elim (Option-cases (find_char c t)) [
  | inl n ↦ ground (arith, find_char-none c t n)
  | inr (i, e) ↦ ground (arith, find_char-split c t i e)
]
before-after t c false h = elim (Option-cases (rfind_char c t)) [
  | inl n ↦ ground (arith, rfind_char-none c t n)
  | inr (i, e) ↦ ground (arith, rfind_char-split c t i e)
]

length-get_endoftext : (t : Text) (m : ℕ) → length (get_endoftext t m) ≤ m
unfolding get_endoftext
length-get_endoftext t m = ground (
  arith,
  length-drop (4 + length t - m) t,
  length-drop (length t - m) t,
  length-append dots (drop (4 + length t - m) t),
)

-- The end of a text never takes more than `max_chars` chars, and it is the whole text exactly for a
-- text that fits.
pub get_endoftext-bound :
    (t : Text) (max_chars : ℕ)
    → (length (get_endoftext t max_chars) ≤ max_chars)
      × ((get_endoftext t max_chars ≡ t) ↔ (length t ≤ max_chars))
unfolding get_endoftext
get_endoftext-bound t m = (
  length-get_endoftext t m,
  (λ e. ground (arith, length-get_endoftext t m, ap length e), λ h. ground arith),
)

-- The members of `v` that start with `t`.
unfoldable pub completions : Text → List Text → List Text
completions t [] = []
completions t (x ∷ v) = if is_prefix t x then x ∷ completions t v else completions t v

abbrev pub last_or : List Text → Text → Text
last_or [] s = s
last_or (x ∷ v) s = last_or v x

complete_from-completions :
    (t : Text) (v : List Text) (n : ℕ) (s : Text)
    → complete_from t v n s ≡ (n + length (completions t v), last_or (completions t v) s)
unfolding complete_from completions
complete_from-completions t [] n s = ground arith
complete_from-completions t (x ∷ v) n s =
    ground (arith, complete_from-completions t v (n + 1) x, complete_from-completions t v n s)
