-- ===== src/Completion/Laws.antt =====
-- Which names are found after the fold level has moved (src/stc/scope.cpp).
use wx_extension.Prelude.{
  ℕ, zero, suc, ◌+◌, ◌-◌, ◌≤◌, min, Bool, true, false, not, ◌&&◌, Option, none, some, List, [], ◌∷◌,
  ◌++◌, Text, length, take, replicate, length-append, length-take, ltb, leb, eq_text, Entries,
  lookup, ◌≡◌, refl, ap, sym, ◌∙◌, arith, Bool-cases, inl, inr,
}
use wx_extension.Completion.{
  Scope, innermost, iterator, find, is_end, entry_or_past, fresh, check_levels, sync,
}

module _ {ℓ} {A : Type ℓ} where
  take-take : (n m : ℕ) (xs : List A) → take n (take m xs) ≡ take (min n m) xs
  take-take zero m xs = let e : min 0 m ≡ 0 = omega arith in rw e refl
  take-take (suc n) zero xs = let e : min (suc n) 0 ≡ 0 = omega arith in rw e refl
  take-take (suc n) (suc m) [] =
      let e : min (suc n) (suc m) ≡ suc (min n m) = omega arith in rw e refl
  take-take (suc n) (suc m) (x ∷ xs) =
      let e : min (suc n) (suc m) ≡ suc (min n m) = omega arith in
      rw e (ap (x ∷◌) (take-take n m xs))

  take-min : (n m : ℕ) (xs : List A) → length xs ≤ m → take (min n m) xs ≡ take n xs
  take-min zero m xs h = let e : min 0 m ≡ 0 = omega arith in rw e refl
  take-min (suc n) zero [] h = let e : min (suc n) 0 ≡ 0 = omega arith in rw e refl
  take-min (suc n) zero (x ∷ xs) h = absurd (omega arith)
  take-min (suc n) (suc m) [] h =
      let e : min (suc n) (suc m) ≡ suc (min n m) = omega arith in rw e refl
  take-min (suc n) (suc m) (x ∷ xs) h =
      let e : min (suc n) (suc m) ≡ suc (min n m) = omega arith in
      rw e (ap (x ∷◌) (take-min n m xs (omega arith)))

length-replicate {ℓ} : {A : Type ℓ} (n : ℕ) (a : A) → length (replicate n a) ≡ n
length-replicate zero a = refl
length-replicate (suc n) a = ap suc (length-replicate n a)

abbrev pub is_found : Option ℕ → Bool
is_found none = false
is_found (some i) = true

-- The levels that are never left: those up to the lowest one.
abbrev pub kept : ℕ → List ℕ → ℕ
kept n [] = n
kept n (m ∷ ms) = min (kept n ms) (suc m)

module _ {C : Type 0} (d : C) where
  innermost-fresh :
      (n j c : ℕ) (t : Text) → innermost (c ∷ t) (take n (replicate j (fresh d))) ≡ none
  unfolding innermost lookup eq_text
  innermost-fresh zero j c t = refl
  innermost-fresh (suc n) zero c t = refl
  innermost-fresh (suc n) (suc j) c t = rw (innermost-fresh n j c t) refl

  -- levels that are new have no name that is found
  innermost-behind :
      (n j c : ℕ) (t : Text) (fs : List (Entries C))
      → innermost (c ∷ t) (take n (fs ++ replicate j (fresh d))) ≡ innermost (c ∷ t) (take n fs)
  unfolding innermost
  innermost-behind zero j c t fs = refl
  innermost-behind (suc n) j c t [] = innermost-fresh (suc n) j c t
  innermost-behind (suc n) j c t (m ∷ fs) = rw (innermost-behind n j c t fs) refl

  -- The names that are found in the first `n` levels, after a move to the level `m`.
  innermost-sync :
      (n m c : ℕ) (t : Text) (s : Scope C)
      → innermost (c ∷ t) (take n (sync d m s).filters)
        ≡ innermost (c ∷ t) (take (min n (suc m)) s.filters)
  unfolding sync check_levels
  innermost-sync n m c t s =
      elim (Bool-cases (leb 1 (length s.filters) && ltb m (length s.filters - 1))) [
        | inl h ↦ rw h (ap (innermost (c ∷ t)) (take-take n (suc m) s.filters))
        | inr h ↦ elim (Bool-cases (leb (length s.filters) m)) [
          | inl k ↦
              rw (h, k)
                (innermost-behind n (m - length s.filters + 1) c t s.filters
                  ∙ ap (innermost (c ∷ t)) (sym (take-min n (suc m) s.filters (ground arith))))
          | inr k ↦
              rw (h, k) (ap (innermost (c ∷ t)) (sym (take-min n (suc m) s.filters (ground arith))))
        ]
      ]

  -- After a move to a level there are maps up to that level and no further.
  pub sync-size : (m : ℕ) (s : Scope C) → length (sync d m s).filters ≡ suc m
  unfolding sync check_levels
  sync-size m s = ground (
    arith,
    length-take (suc m) s.filters,
    length-append s.filters (replicate (m - length s.filters + 1) (fresh d)),
    length-replicate (m - length s.filters + 1) (fresh d),
  )

  -- Moves to levels, one after another.
  pub moves : List ℕ → Scope C → Scope C
  moves [] s = s
  moves (m ∷ ms) s = moves ms (sync d m s)

  innermost-moves :
      (ms : List ℕ) (n c : ℕ) (t : Text) (s : Scope C)
      → innermost (c ∷ t) (take n (moves ms s).filters)
        ≡ innermost (c ∷ t) (take (kept n ms) s.filters)
  unfolding moves
  innermost-moves [] n c t s = refl
  innermost-moves (m ∷ ms) n c t s =
      innermost-moves ms n c t (sync d m s) ∙ innermost-sync (kept n ms) m c t s

  iterator-sync :
      (k c : ℕ) (t : Text) (s : Scope C)
      → iterator k (c ∷ t) (sync d k s)
        ≡ entry_or_past k (c ∷ t) (innermost (c ∷ t) (take (suc k) s.filters))
  unfolding iterator
  iterator-sync k c t s =
      let e : suc (min k (length (sync d k s).filters - 1)) ≡ suc k =
        omega (arith, sync-size k s) in
      let f : min (suc k) (suc k) ≡ suc k = omega arith in
      ap (λ n. entry_or_past k (c ∷ t) (innermost (c ∷ t) (take n (sync d k s).filters))) e
      ∙ ap (entry_or_past k (c ∷ t))
          (innermost-sync (suc k) k c t s ∙ ap (λ n. innermost (c ∷ t) (take n s.filters)) f)

  is_end-entry_or_past :
      (k : ℕ) (t : Text) (o : Option ℕ) (s : Scope C)
      → length s.filters ≡ suc k
      → s.it ≡ entry_or_past k t o
      → not (is_end k s) ≡ is_found o
  unfolding is_end
  is_end-entry_or_past k t none s h e = rw e (ground arith)
  is_end-entry_or_past k t (some i) s h e = rw e (ground arith)

  -- Whatever levels it has moved through, after a move to the level `k` a name is found where it
  -- stands innermost among the levels that were never left, and if it stands in none of them it is
  -- not found.
  pub find-moves :
      (ms : List ℕ) (k c : ℕ) (t : Text) (s : Scope C)
      → (let o = innermost (c ∷ t) (take (kept (suc k) ms) s.filters) in
          let r = find k (c ∷ t) (sync d k (moves ms s)) in
          (r.0.it ≡ entry_or_past k (c ∷ t) o) × (r.1 ≡ is_found o))
  unfolding find
  find-moves ms k c t s =
      let w = moves ms s in
      let e : iterator k (c ∷ t) (sync d k w)
          ≡ entry_or_past k (c ∷ t) (innermost (c ∷ t) (take (kept (suc k) ms) s.filters)) =
        iterator-sync k c t w ∙ ap (entry_or_past k (c ∷ t)) (innermost-moves ms (suc k) c t s) in
      (
        e,
        is_end-entry_or_past k (c ∷ t) (innermost (c ∷ t) (take (kept (suc k) ms) s.filters))
            (record (sync d k w) { it = iterator k (c ∷ t) (sync d k w) }) (sync-size k w) e,
      )
