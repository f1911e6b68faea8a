-- ===== src/FileSearch/Laws.antt =====
-- What is replaced in a line and in a file (src/common/stream.cpp).
pub mod Files
use wx_extension.Prelude.{
  ℕ, zero, suc, ◌+◌, ◌-◌, ◌<◌, Bool, true, false, none, some, List, [], ◌∷◌, ◌++◌, Text, length,
  take, drop, length-append, length-drop, ◌≡◌, refl, ap, ◌∙◌, arith, Bool-cases, Option-cases, inl,
  inr,
}
use wx_extension.Core.Text.{is_empty}
use wx_extension.Prelude.{is_prefix}
use wx_extension.FileSearch.{find_text, replace_from, replace_all}

-- a ++ u ++ b ++ u ... for the texts a, b, ...
pub joined : Text → Text → List Text → Text
joined u a [] = a
joined u a (b ∷ bs) = a ++ (u ++ joined u b bs)

-- No text has an occurrence of `u`.
abbrev pub all_without : Text → List Text → Bool
all_without u [] = true
all_without u (b ∷ bs) = elim (find_text u b) [ none ↦ all_without u bs | some i ↦ false ]

is_prefix-split : (u t : Text) → is_prefix u t ≡ true → t ≡ u ++ drop (length u) t
is_prefix-split [] t h = refl
is_prefix-split (c ∷ u) [] h = cc
is_prefix-split (c ∷ u) (d ∷ t) h = ground (arith, is_prefix-split u t)

is_prefix-take :
    (u : Text) (k : ℕ) (t : Text) → is_prefix u t ≡ false → is_prefix u (take k t) ≡ false
is_prefix-take [] k t h = cc
is_prefix-take (c ∷ u) zero t h = refl
is_prefix-take (c ∷ u) (suc k) [] h = refl
is_prefix-take (c ∷ u) (suc k) (d ∷ t) h = ground (arith, is_prefix-take u k t)

-- A search in a text that starts with no match goes on behind its first char.
find_text-behind :
    (u : Text) (c : ℕ) (t : Text) (i : ℕ)
    → is_prefix u (c ∷ t) ≡ false
    → find_text u (c ∷ t) ≡ some i
    → (j : ℕ) × (i ≡ suc j) × (find_text u t ≡ some j)
unfolding find_text
find_text-behind u c t i p h = elim (Option-cases (find_text u t)) [
  | inl e ↦ ground (arith, e)
  | inr (j, e) ↦ (j, ground (arith, e), e)
]

find_text-empty : (u : Text) → is_empty u ≡ false → find_text u [] ≡ none
unfolding find_text
find_text-empty u e = rw e refl

find_text-nil :
    (u : Text) (i : ℕ)
    → find_text u [] ≡ some i
    → [] ≡ take i [] ++ (u ++ drop (length u) (drop i []))
unfolding find_text
find_text-nil [] zero h = refl
find_text-nil [] (suc i) h = ground arith
find_text-nil (c ∷ u) i h = ground arith

find_text-cons :
    (u : Text) (c : ℕ) (t : Text)
    → is_prefix u (c ∷ t) ≡ false
    → find_text u t ≡ none
    → find_text u (c ∷ t) ≡ none
unfolding find_text
find_text-cons u c t p h = rw (p, h) refl

find_text-here :
    (u : Text) (c : ℕ) (t : Text) (i : ℕ)
    → is_prefix u (c ∷ t) ≡ true
    → find_text u (c ∷ t) ≡ some i
    → i ≡ 0
unfolding find_text
find_text-here u c t i p h = ground arith

-- A text is what is before a match, the match, and what is behind it.
find_text-split :
    (u t : Text) (i : ℕ)
    → find_text u t ≡ some i
    → t ≡ take i t ++ (u ++ drop (length u) (drop i t))
find_text-split u [] i h = find_text-nil u i h
find_text-split u (c ∷ t) i h = elim (Bool-cases (is_prefix u (c ∷ t))) [
  | inl p ↦ rw (find_text-here u c t i p h) (is_prefix-split u (c ∷ t) p)
  | inr p ↦
      let (j, e, f) = find_text-behind u c t i p h in rw e (ap (c ∷◌) (find_text-split u t j f))
]

-- The text before a match has none.
find_text-before :
    (u t : Text) (i : ℕ)
    → is_empty u ≡ false
    → find_text u t ≡ some i
    → find_text u (take i t) ≡ none
find_text-before u [] i e h = cc (find_text-empty u e)
find_text-before u (c ∷ t) i e h = elim (Bool-cases (is_prefix u (c ∷ t))) [
  | inl p ↦ rw (find_text-here u c t i p h) (find_text-empty u e)
  | inr p ↦
      let (j, k, f) = find_text-behind u c t i p h in
      rw k (
        find_text-cons u c (take j t) (is_prefix-take u (suc j) (c ∷ t) p)
          (find_text-before u t j e f))
]

-- What a text is split into at the matches, and what the result is: with `u` between the parts it
-- is the text, with `r` it is the result, no part has an occurrence of `u`, and the count is that
-- of the places between parts.
pub record IsReplaced (u r t result : Text) (count : ℕ) : Type 0 where
  pub first : Text
  pub others : List Text
  pub text_joined : t ≡ joined u first others
  pub result_joined : result ≡ joined r first others
  pub parts_without : all_without u (first ∷ others) ≡ true
  pub count_parts : count ≡ length others

behind-shorter :
    (u t : Text) (i n : ℕ)
    → is_empty u ≡ false
    → find_text u t ≡ some i
    → length t < suc n
    → length (drop (length u) (drop i t)) < n
behind-shorter [] t i n e f h = cc
behind-shorter (c ∷ u) t i n e f h = omega (
  arith,
  ap length (find_text-split (c ∷ u) t i f),
  length-append (take i t) (c ∷ u ++ drop (suc (length u)) (drop i t)),
  length-append u (drop (suc (length u)) (drop i t)),
  length-drop (suc (length u)) (drop i t),
  length-drop i t,
)

replace_from-IsReplaced :
    (n : ℕ) (u r t : Text)
    → is_empty u ≡ false
    → length t < n
    → (result : Text) × (count : ℕ) × (replace_from n u r t ≡ some (result, count))
      × IsReplaced u r t result count
unfolding replace_from joined
replace_from-IsReplaced zero u r t e h = absurd (omega arith)
replace_from-IsReplaced (suc n) u r t e h = elim (Option-cases (find_text u t)) [
  | inl f ↦ (
    t,
    0,
    rw (f, replace_from) refl,
    record {
      first = t;
      others = [];
      text_joined = refl;
      result_joined = refl;
      parts_without = rw (f, all_without) refl;
      count_parts = refl;
    },
  )
  | inr (i, f) ↦
      let behind = drop (length u) (drop i t) in
      let (w, k, g, p) = replace_from-IsReplaced n u r behind e (behind-shorter u t i n e f h) in
      (
        take i t ++ (r ++ w),
        suc k,
        rw (f, g, replace_from) refl,
        record {
          first = take i t;
          others = p.first ∷ p.others;
          text_joined = find_text-split u t i f ∙ ap (λ z. take i t ++ (u ++ z)) p.text_joined;
          result_joined = ap (λ z. take i t ++ (r ++ z)) p.result_joined;
          parts_without = rw (find_text-before u t i e f, all_without) p.parts_without;
          count_parts = ap suc p.count_parts;
        },
      )
]

-- Replacing in a line always ends, for a text that is not empty: what it gives is the line with the
-- replacement put in for the matches, which stand between parts with no match of their own.
pub replace_all-IsReplaced :
    (u r t : Text)
    → is_empty u ≡ false
    → (result : Text) × (count : ℕ) × (replace_all u r t ≡ some (result, count))
      × IsReplaced u r t result count
unfolding replace_all
replace_all-IsReplaced u r t e = replace_from-IsReplaced (suc (length t)) u r t e (omega arith)
