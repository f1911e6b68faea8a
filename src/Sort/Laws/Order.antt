-- ===== src/Sort/Laws/Order.antt =====
-- The order of texts, and lists that ascend in an order.
use wx_extension.Prelude.{Bool, true, not, ◌&&◌, List, [], ◌∷◌, ◌++◌, Text, ◌≡◌, refl, arith}
use mathlib.Core.List.{reverse, reverse-cons}
use wx_extension.Sort.{text_lt}

unfoldable pub text_le : Text → Text → Bool
text_le t u = not (text_lt u t)

pub text_lt→le : (t u : Text) → text_lt t u ≡ true → text_le t u ≡ true
unfolding text_lt text_le
text_lt→le t [] h = ground arith
text_lt→le [] (d ∷ u) h = refl
text_lt→le (c ∷ t) (d ∷ u) h = ground (arith, text_lt→le t u)

module _ {ℓ} {A : Type ℓ} (R : A → A → Bool) where
  -- Each element is in `R` to the next one, and `x` to the first.
  abbrev pub chain : A → List A → Bool
  chain x [] = true
  chain x (y ∷ l) = R x y && chain y l

  abbrev pub ascending : List A → Bool
  ascending [] = true
  ascending (x ∷ l) = chain x l

  chain-snoc :
      (x a b : A) (l : List A)
      → chain x (l ++ a ∷ []) ≡ true
      → R a b ≡ true
      → chain x ((l ++ a ∷ []) ++ b ∷ []) ≡ true
  chain-snoc x a b [] h r = ground arith
  chain-snoc x a b (y ∷ l) h r = ground (arith, chain-snoc y a b l)

  pub ascending-snoc :
      (a b : A) (l : List A)
      → ascending (l ++ a ∷ []) ≡ true
      → R a b ≡ true
      → ascending ((l ++ a ∷ []) ++ b ∷ []) ≡ true
  ascending-snoc a b [] h r = ground arith
  ascending-snoc a b (x ∷ l) h r = chain-snoc x a b l h r

pub ascending-reverse :
    {A : Type 0} (R : A → A → Bool) (l : List A)
    → ascending R l ≡ true
    → ascending (λ a b. R b a) (reverse l) ≡ true
ascending-reverse R [] h = refl
ascending-reverse R (x ∷ []) h = refl
ascending-reverse R (x ∷ y ∷ l) h =
    rw (reverse-cons x (y ∷ l), reverse-cons y l)
      (ascending-snoc (λ a b. R b a) y x (reverse l)
        (rw (← reverse-cons y l) (ascending-reverse R (y ∷ l) (ground arith))) (ground arith))
