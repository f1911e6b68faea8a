-- ===== src/ExCommand/Laws/Prefix.antt =====
-- Chars that are put into a text and taken out of it, behind a prefix.
use wx_extension.Prelude.{
  ℕ, zero, suc, ◌+◌, ◌-◌, ◌≤◌, [], ◌∷◌, ◌++◌, append-nil, append_assoc, Text, length, take, drop,
  length-append, length-take, length-drop, ◌≡◌, refl, ap, arith,
}
use wx_extension.ExCommand.{erased, inserted}

pub take-prefix : (p v : Text) (i n : ℕ) → n ≡ i + length p → take n (p ++ v) ≡ p ++ take i v
take-prefix [] v i n h = let f : n ≡ i = omega arith in rw f refl
take-prefix (c ∷ p) v i zero h = absurd (omega arith)
take-prefix (c ∷ p) v i (suc n) h = ap (c ∷◌) (take-prefix p v i n (omega arith))

pub drop-prefix : (p v : Text) (i n : ℕ) → n ≡ i + length p → drop n (p ++ v) ≡ drop i v
drop-prefix [] v i n h = let f : n ≡ i = omega arith in rw f refl
drop-prefix (c ∷ p) v i zero h = absurd (omega arith)
drop-prefix (c ∷ p) v i (suc n) h = drop-prefix p v i n (omega arith)

pub erased-prefix : (p v : Text) (i n : ℕ) → erased (i + length p) n (p ++ v) ≡ p ++ erased i n v
erased-prefix p v i n =
    rw
      (
        take-prefix p v i (i + length p) refl,
        drop-prefix p v (i + n) (i + length p + n) (omega arith),
      )
      (append_assoc p (take i v) (drop (i + n) v))

pub inserted-prefix :
    (p u v : Text) (i : ℕ) → inserted (i + length p) u (p ++ v) ≡ p ++ inserted i u v
inserted-prefix p u v i =
    rw (take-prefix p v i (i + length p) refl, drop-prefix p v i (i + length p) refl)
      (append_assoc p (take i v) (u ++ drop i v))

pub take_all : (v : Text) (i : ℕ) → length v ≤ i → take i v ≡ v
take_all [] zero h = refl
take_all [] (suc i) h = refl
take_all (c ∷ v) zero h = absurd (omega arith)
take_all (c ∷ v) (suc i) h = ap (c ∷◌) (take_all v i (omega arith))

pub drop_all : (v : Text) (i : ℕ) → length v ≤ i → drop i v ≡ []
drop_all [] zero h = refl
drop_all [] (suc i) h = refl
drop_all (c ∷ v) zero h = absurd (omega arith)
drop_all (c ∷ v) (suc i) h = drop_all v i (omega arith)

pub inserted_end : (u v : Text) (i : ℕ) → i ≡ length v → inserted i u v ≡ v ++ u
inserted_end u v i h =
    rw (take_all v i (omega arith), drop_all v i (omega arith), append-nil u) refl

pub erased_end : (v : Text) (i n : ℕ) → length v ≤ i + n → erased i n v ≡ take i v
erased_end v i n h = rw (drop_all v (i + n) h) (append-nil (take i v))

pub length-erased : (v : Text) (i n : ℕ) → i + n ≤ length v → length (erased i n v) ≡ length v - n
length-erased v i n h =
    omega (arith, length-append (take i v) (drop (i + n) v), length-take i v, length-drop (i + n) v)

pub length-inserted :
    (u v : Text) (i : ℕ) → i ≤ length v → length (inserted i u v) ≡ length v + length u
length-inserted u v i h = omega (
  arith,
  length-append (take i v) (u ++ drop i v),
  length-append u (drop i v),
  length-take i v,
  length-drop i v,
)
