-- ===== src/Prelude/Maps.antt =====
-- Equal texts, and maps as lists of entries whose keys a Boolean test compares. The first entry of
-- a key is the one that counts.
use mathlib.Core.Path.{◌≡◌, refl, ap}
use mathlib.Core.Bool.{Bool, true, false, ◌&&◌}
use mathlib.Core.Option.{Option, none, some}
use mathlib.Core.List.{List, [], ◌∷◌}
use native.Mathlib.Omega.{arith}
use wx_extension.Prelude.Tests.{◌==◌, if◌then◌else◌}
use wx_extension.Prelude.Lists.{Text}

unfoldable pub eq_text : Text → Text → Bool
eq_text [] [] = true
eq_text [] (d ∷ u) = false
eq_text (c ∷ t) [] = false
eq_text (c ∷ t) (d ∷ u) = c == d && eq_text t u

pub eq_text_refl : (t : Text) → eq_text t t ≡ true
unfolding eq_text
eq_text_refl [] = refl
eq_text_refl (c ∷ t) = ground (arith, eq_text_refl t)

pub eq_text→eq : (t u : Text) → eq_text t u ≡ true → t ≡ u
unfolding eq_text
eq_text→eq [] [] h = refl
eq_text→eq [] (d ∷ u) h = ground arith
eq_text→eq (c ∷ t) [] h = ground arith
eq_text→eq (c ∷ t) (d ∷ u) h = ground (arith, eq_text→eq t u)

-- equal texts compare alike with a third one
pub eq_text_left : (j k i : Text) → eq_text j k ≡ true → eq_text j i ≡ eq_text k i
eq_text_left j k i h = ap (λ t. eq_text t i) (eq_text→eq j k h)

pub eq_text_right : (j k i : Text) → eq_text k i ≡ true → eq_text j k ≡ eq_text j i
eq_text_right j k i h = ap (λ t. eq_text j t) (eq_text→eq k i h)

-- Entries under names.
abbrev pub Entries {ℓ} : Type ℓ → Type ℓ
Entries V = List (Text × V)

module _ {ℓ} {V : Type ℓ} where
  unfoldable pub lookup : Text → Entries V → Option V
  lookup k [] = none
  lookup k ((j, v) ∷ m) = if eq_text k j then some v else lookup k m

  -- m[k] = v
  unfoldable pub put : Text → V → Entries V → Entries V
  put k v [] = (k, v) ∷ []
  put k v ((j, w) ∷ m) = if eq_text k j then (j, v) ∷ m else (j, w) ∷ put k v m

  -- m.erase(k)
  unfoldable pub remove : Text → Entries V → Entries V
  remove k [] = []
  remove k ((j, w) ∷ m) = if eq_text k j then remove k m else (j, w) ∷ remove k m

  pub lookup-put :
      (k j : Text) (v : V) (m : Entries V)
      → lookup j (put k v m) ≡ (if eq_text j k then some v else lookup j m)
  unfolding lookup put
  lookup-put k j v [] = refl
  lookup-put k j v ((i, w) ∷ m) =
      ground (arith, eq_text_left j k i, eq_text_right j k i, lookup-put k j v m)

  pub lookup-remove :
      (k j : Text) (m : Entries V)
      → lookup j (remove k m) ≡ (if eq_text j k then none else lookup j m)
  unfolding lookup remove
  lookup-remove k j [] = ground arith
  lookup-remove k j ((i, w) ∷ m) =
      ground (arith, eq_text_left j k i, eq_text_right j k i, lookup-remove k j m)
