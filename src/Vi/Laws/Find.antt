-- ===== src/Vi/Laws/Find.antt =====
-- Finding a char again, and in the other direction (src/vi/vi.cpp: the motions f F t T , and ;).
use wx_extension.Prelude.{
  ℕ, true, some, [], ◌∷◌, Text, if◌then◌else◌, is_lower, to_lower, ◌≡◌, refl, arith,
}
use wx_extension.Core.Text.{contains}
use wx_extension.Vi.Component.{Stc, Vi}
use wx_extension.Vi.Motions.{find_char_motion, find_char_target, find_towards, to_upper}

-- The other direction of f F t T.
abbrev pub turned : ℕ → ℕ
turned k = if is_lower k then to_upper k else to_lower k

abbrev pub find_keys : Text
find_keys = b'f' ∷ b'F' ∷ b't' ∷ b'T' ∷ []

find_char_target-again : (k c : ℕ) → find_char_target (b';' ∷ []) (k ∷ c ∷ []) ≡ some (c, k)
unfolding find_char_target
find_char_target-again k c = refl

find_char_target-turned : (k c : ℕ) → find_char_target (b',' ∷ []) (k ∷ c ∷ []) ≡ some (c, turned k)
unfolding find_char_target
find_char_target-turned k c = refl

find_char_target-typed :
    (k c : ℕ) (last : Text)
    → contains k find_keys ≡ true
    → find_char_target (k ∷ c ∷ []) last ≡ some (c, k)
unfolding find_char_target
find_char_target-typed k c last h = ground arith

find_keys-turned : (k : ℕ) → contains k find_keys ≡ true → contains (turned k) find_keys ≡ true
find_keys-turned k h = ground arith

module _ {E : Type 0} (x : Stc E) where
  find_char_motion-found :
      (t : Text) (c d : ℕ) (v : Vi E)
      → find_char_target t v.last_find ≡ some (c, d)
      → find_char_motion x t v ≡ find_towards x t c d v
  unfolding find_char_motion
  find_char_motion-found t c d v h = rw (h, find_char_motion) refl

  -- A search that is repeated keeps the last command.
  find_towards_again :
      (k c : ℕ) (v : Vi E)
      → contains k find_keys ≡ true
      → v.last_find ≡ k ∷ c ∷ []
      → (find_towards x (b';' ∷ []) c k v).0 ≡ (find_towards x (k ∷ c ∷ []) c k v).0
  unfolding find_towards
  find_towards_again k c v h e = ground arith

  find_towards_turned :
      (k c : ℕ) (v : Vi E)
      → (find_towards x (b',' ∷ []) c k v).0
        ≡ record (find_towards x (k ∷ c ∷ []) c k v).0 { last_find = v.last_find }
  unfolding find_towards
  find_towards_turned k c v = ground arith

  -- After a command of f F t T that found its char, `;` does what that command does again, and `,`
  -- what the command of the other direction does, but the command that is kept is the first one.
  pub find_char_motion-repeats :
      (k c : ℕ) (v : Vi E)
      → contains k find_keys ≡ true
      → v.last_find ≡ k ∷ c ∷ []
      → ((find_char_motion x (b';' ∷ []) v).0 ≡ (find_char_motion x (k ∷ c ∷ []) v).0)
        × ((find_char_motion x (b',' ∷ []) v).0
            ≡ record (find_char_motion x (turned k ∷ c ∷ []) v).0 { last_find = v.last_find })
  find_char_motion-repeats k c v h e = (
    rw (find_char_motion-found (b';' ∷ []) c k v (rw e (find_char_target-again k c))) (
        rw (find_char_motion-found (k ∷ c ∷ []) c k v (find_char_target-typed k c v.last_find h))
          (find_towards_again k c v h e)),
    rw (find_char_motion-found (b',' ∷ []) c (turned k) v (rw e (find_char_target-turned k c))) (
        rw
          (find_char_motion-found (turned k ∷ c ∷ []) c (turned k) v
            (find_char_target-typed (turned k) c v.last_find (find_keys-turned k h)))
          (find_towards_turned (turned k) c v)),
  )
