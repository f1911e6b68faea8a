-- ===== src/Shell/Laws/Texts.antt =====
-- Chars that are put into a text and taken out of it, behind a prompt.
use wx_extension.Prelude.{
  ℕ, zero, suc, ◌+◌, ◌-◌, ◌≤◌, List, [], ◌∷◌, ◌++◌, Text, length, take, drop, length-append,
  length-take, length-drop, ◌≡◌, refl, ap, sym, ◌∙◌, arith,
}
use wx_extension.Shell.{erase_at, insert_char}

module _ {ℓ} {A : Type ℓ} where
  pub drop-take :
      (s q p : ℕ) (t u : List A)
      → s + q ≡ p
      → p ≤ length t
      → drop s (take p t ++ u) ≡ take q (drop s t) ++ u
  drop-take zero q p t u e k = let f : q ≡ p = omega arith in rw f refl
  drop-take (suc s) q zero t u e k = absurd (omega arith)
  drop-take (suc s) q (suc p) [] u e k = absurd (omega arith)
  drop-take (suc s) q (suc p) (a ∷ t) u e k = drop-take s q p t u (omega arith) (omega arith)

  pub drop-drop : (s q p : ℕ) (t : List A) → s + q ≡ p → drop q (drop s t) ≡ drop p t
  drop-drop zero q p t e = let f : q ≡ p = omega arith in rw f refl
  drop-drop (suc s) q zero t e = absurd (omega arith)
  drop-drop (suc s) zero (suc p) [] e = refl
  drop-drop (suc s) (suc q) (suc p) [] e = refl
  drop-drop (suc s) q (suc p) (a ∷ t) e = drop-drop s q p t (omega arith)

  pub drop-append : (t u : List A) → drop (length t) (t ++ u) ≡ u
  drop-append [] u = refl
  drop-append (a ∷ t) u = drop-append t u

pub insert_behind : (q c : ℕ) (t : Text) → length t ≤ q → insert_char q c t ≡ t ++ c ∷ []
insert_behind zero c [] h = refl
insert_behind (suc q) c [] h = refl
insert_behind zero c (d ∷ t) h = absurd (omega arith)
insert_behind (suc q) c (d ∷ t) h = ap (d ∷◌) (insert_behind q c t (omega arith))

pub erase_behind : (q : ℕ) (t : Text) → length t ≤ q → erase_at q t ≡ t
erase_behind zero [] h = refl
erase_behind (suc q) [] h = refl
erase_behind zero (d ∷ t) h = absurd (omega arith)
erase_behind (suc q) (d ∷ t) h = ap (d ∷◌) (erase_behind q t (omega arith))

pub drop-insert_char :
    (s p c : ℕ) (t : Text)
    → s ≤ p
    → p ≤ length t
    → drop s (insert_char p c t) ≡ insert_char (p - s) c (drop s t)
drop-insert_char s p c t h k =
    drop-take s (p - s) p t (c ∷ drop p t) (omega arith) k
    ∙ ap (λ u. take (p - s) (drop s t) ++ c ∷ u) (sym (drop-drop s (p - s) p t (omega arith)))

pub drop-erase_at :
    (s p : ℕ) (t : Text)
    → s ≤ p
    → p ≤ length t
    → drop s (erase_at p t) ≡ erase_at (p - s) (drop s t)
drop-erase_at s p t h k =
    drop-take s (p - s) p t (drop 1 (drop p t)) (omega arith) k
    ∙ ap (λ u. take (p - s) (drop s t) ++ drop 1 u) (sym (drop-drop s (p - s) p t (omega arith)))

pub length-insert_char : (p c : ℕ) (t : Text) → length (insert_char p c t) ≡ suc (length t)
length-insert_char p c t =
    omega (arith, length-append (take p t) (c ∷ drop p t), length-take p t, length-drop p t)

pub le-length-erase_at : (p : ℕ) (t : Text) → p ≤ length t → p ≤ length (erase_at p t)
le-length-erase_at p t h =
    omega (arith, length-append (take p t) (drop 1 (drop p t)), length-take p t)

pub drop_all : (t : Text) → drop (length t) t ≡ []
drop_all [] = refl
drop_all (c ∷ t) = drop_all t
