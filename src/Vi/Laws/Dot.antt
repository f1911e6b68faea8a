-- ===== src/Vi/Laws/Dot.antt =====
-- The rounds of a dot (src/vi/vi.cpp: the command "." of m_other_commands, and REPEAT).
use wx_extension.Prelude.{
  ℕ, zero, suc, ◌+◌, ◌≤◌, ◌<◌, true, false, some, Text, lt→ltb, ◌≡◌, refl, ◌∙◌, arith,
}
use wx_extension.Core.Text.{is_empty}
use wx_extension.Vi.Component.{Stc, Vi}
use wx_extension.Vi.Motions.{repeat}
use wx_extension.Vi.OtherActions.{Again, dot_rounds, dot_command}

repeat_behind : {A : Type 0} (n : ℕ) (f : A → A) (a : A) → f (repeat n f a) ≡ repeat n f (f a)
unfolding repeat
repeat_behind zero f a = refl
repeat_behind (suc n) f a = repeat_behind n f (f a)

module _ {E : Type 0} (x : Stc E) (again : Again E) where
  dot_rounds-step :
      (n i : ℕ) (v u : Vi E)
      → i < v.count
      → again v.last_command v ≡ some (u, true)
      → dot_rounds x (suc n) i again v ≡ dot_rounds x n (suc i) again u
  unfolding dot_rounds
  dot_rounds-step n i v u h r = rw (lt→ltb i v.count h, r) refl

  dot_rounds-end : (n i : ℕ) (v : Vi E) → v.count ≤ i → dot_rounds x (suc n) i again v ≡ some v
  unfolding dot_rounds
  dot_rounds-end n i v h = ground arith

-- The state in which a dot does its rounds.
abbrev pub begun : {E : Type 0} → Stc E → Vi E → Vi E
begun x v = record v { dot = true; around = x.begin_undo v.around }

-- `f` is one run of the last command, from the state `s` on; each of the runs that are needed
-- succeeds, and leaves the count that the command has.
module _ {E : Type 0} (x : Stc E) (again : Again E) (f : Vi E → Vi E) (s : Vi E) (j : ℕ)
    (counts : (i : ℕ) → i ≤ j → (repeat i f (f s)).count ≡ suc j)
    (runs : (i : ℕ)
      → i ≤ j
      → again (repeat i f s).last_command (repeat i f s) ≡ some (f (repeat i f s), true)) where
  -- the rounds behind the first one
  dot_rounds-repeat :
      (n i m : ℕ)
      → i + m ≡ j
      → m < n
      → dot_rounds x n (suc i) again (repeat i f (f s)) ≡ some (repeat m f (repeat i f (f s)))
  unfolding repeat
  dot_rounds-repeat zero i m h l = absurd (omega arith)
  dot_rounds-repeat (suc n) i zero h l =
      dot_rounds-end x again n (suc i) (repeat i f (f s)) (omega (arith, counts i (omega arith)))
  dot_rounds-repeat (suc n) i (suc m) h l =
      dot_rounds-step x again n (suc i) (repeat i f (f s)) (f (repeat i f (f s)))
        (omega (arith, counts i (omega arith))) (runs (suc i) (omega arith))
      ∙ rw (repeat_behind i f (f s)) (dot_rounds-repeat n (suc i) m (omega arith) (omega arith))

  dot_rounds-all :
      (n : ℕ) → 0 < s.count → suc j < n → dot_rounds x n 0 again s ≡ some (repeat (suc j) f s)
  unfolding repeat
  dot_rounds-all zero c l = absurd (omega arith)
  dot_rounds-all (suc n) c l =
      dot_rounds-step x again n 0 s (f s) c (runs 0 (omega arith))
      ∙ dot_rounds-repeat n 0 j (omega arith) (omega arith)

-- A dot with a count above 0 does the last command as often as the count says that the command
-- leaves behind: `f` is one run of it, where the runs that are needed succeed and leave the count
-- j + 1. The count given to the dot makes no difference.
pub dot_command-rounds :
    {E : Type 0} (x : Stc E) (again : Again E) (f : Vi E → Vi E) (j n : ℕ) (t : Text) (v : Vi E)
    → ((i : ℕ) → i ≤ j → (repeat i f (f (begun x v))).count ≡ suc j)
    → ((i : ℕ)
        → i ≤ j
        → again (repeat i f (begun x v)).last_command (repeat i f (begun x v))
          ≡ some (f (repeat i f (begun x v)), true))
    → is_empty v.last_command ≡ false
    → 0 < v.count
    → suc j < n
    → dot_command x n again t v ≡ (
        let w = repeat (suc j) f (begun x v) in
        some (record w { dot = false; around = x.end_undo w.around }, 1))
unfolding dot_command
dot_command-rounds x again f j n t v counts runs e c l =
    rw (e, dot_rounds-all x again f (begun x v) j counts runs n c l) refl
