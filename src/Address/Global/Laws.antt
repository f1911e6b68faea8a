-- ===== src/Address/Global/Laws.antt =====
-- That the global command ends (src/vi/addressrange.cpp).
use wx_extension.Prelude.{
  ℕ, zero, suc, ◌+◌, ◌≤◌, true, false, some, List, Text, ltb, ℤ, pos, pos_part, ◌≡◌, ap, ◌∙◌, arith,
  Option-cases, Bool-cases, inl, inr,
}
use wx_extension.Address.Global.{
  Editor, GlobalEnv, Round, global_env, for_match, global_loop, is_infinite, global, end_global,
}

module _ {E : Type 0} (x : Editor E) (g : GlobalEnv) where
  -- a match adds one hit at most
  for_match-hits :
      (start : ℤ) (hits : ℕ) (e : E) → (for_match x g false start hits e).hits ≤ suc hits
  unfolding for_match
  for_match-hits start hits e = ground arith

  for_match-ok :
      (start : ℤ) (hits : ℕ) (e : E)
      → (for_match x g false start hits e).ok ≡ true
      → (for_match x g false start hits e).hits ≡ suc hits
  unfolding for_match
  for_match-ok start hits e h = ground arith

  global_loop-ends :
      (n hits : ℕ) (start : ℤ) (e : E)
      → hits ≤ 50
      → 51 ≤ n + hits
      → (r : ℤ × Round E) × (global_loop n x g false true start hits e ≡ some r) × (r.1.hits ≤ 51)
  unfolding global_loop
  global_loop-ends zero hits start e h b = ground arith
  global_loop-ends (suc n) hits start e h b = elim (Option-cases (x.search e)) [
    | inl missing ↦ (
      (start, record { ok = true; end = start; hits = hits; editor = e }),
      ground arith,
      omega arith,
    )
    | inr (e1, found) ↦
        let r = for_match x g false start hits e1 in
        let e2 = x.set_target (ltb 0 g.changes) (pos_part r.end) r.editor in
        let le : r.hits ≤ suc hits = for_match-hits start hits e1 in
        elim (Bool-cases r.ok) [
          | inr failed ↦ ((start, r), ground arith, omega (arith, le))
          | inl ok ↦ elim (Bool-cases (ltb 50 r.hits)) [
            | inl many ↦ ((start, record r { ok = false }), ground arith, omega (arith, le))
            | inr few ↦ elim (Bool-cases (x.target_is_empty e2)) [
              | inl at_end ↦ ((start, record r { editor = e2 }), ground arith, omega (arith, le))
              | inr more ↦
                  let one = for_match-ok start hits e1 ok in
                  let (s, ends, less) =
                    global_loop-ends n r.hits start e2 (ground arith) (omega (arith, one)) in
                  (s, ground (arith, ends), less)
            ]
          ]
        ]
  ]

-- A global command that is not inverse, and whose commands change lines other than by one of the
-- three texts that are trusted, ends after at most 51 matches, whatever its commands do to the
-- editor.
pub global-ends :
    {E : Type 0} (x : Editor E) (tokens : Text → List Text) (commands : Text) (e : E)
    → is_infinite (global_env (tokens commands)) commands ≡ true
    → (r : Round E) × (global 51 x tokens commands false e ≡ some r) × (r.hits ≤ 51)
unfolding global end_global
global-ends x tokens commands e h =
    let g = global_env (tokens commands) in
    let e1 = x.start_target (x.clear_marks e) in
    let ((start, r), ends, less) =
      global_loop-ends x g 51 0 (pos 0) e1 (omega arith) (omega arith) in
    (
      r,
      ap (λ b. end_global x g false (global_loop 51 x g false b (pos 0) 0 e1)) h
          ∙ ap (end_global x g false) ends,
      less,
    )
