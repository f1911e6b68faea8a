-- ===== src/Address/Substitution/Laws.antt =====
-- That the loop of substitute ends (src/vi/addressrange.cpp).
use wx_extension.Prelude.{
  ℕ, zero, suc, ◌-◌, ◌≤◌, ◌<◌, Bool, true, false, some, Text, if◌then◌else◌, leb, ◌≡◌, refl, arith,
  Bool-cases, Option-cases, inl, inr,
}
use wx_extension.Substitute.{Substitute, is_global, is_confirmed}
use wx_extension.Address.Substitution.{
  Editor, Answer, answer_yes, answer_no, cancel, put_match, replace_match, advance, needs_build,
  substitute_matches,
}

le_trans : {a b c : ℕ} → a ≤ b → b ≤ c → a ≤ c
le_trans h k = omega arith

module _ {E : Type 0} (x : Editor E) (s : Substitute) where
  -- The chars from the target to the end of the range.
  abbrev pub behind : E → ℕ
  behind e = x.line_end b'$' e - x.target_end e

  -- What is relied on of the component: a match of the pattern is not empty and stands in the
  -- target, and what is put in the target or asked leaves no more chars behind it than were there.
  -- A replacement with a newline leaves less where the marker $ stays at the first of the lines.
  pub record IsEditor : Type 0 where
    pub search_lem :
        (e f : E)
        → x.target_end e ≡ x.line_end b'$' e
        → x.search s.pattern e ≡ some f
        → behind f < x.target_end e - x.target_start e
    pub write_lem : (t : Text) (e : E) → behind (x.write_target t e) ≤ behind e
    pub confirm_lem : (p t : Text) (e : E) → behind (x.confirm p t e).0 ≤ behind e
    pub replace_lem : (r : Bool) (t : Text) (e : E) → behind (x.replace r t e) ≤ behind e
    pub hexmode_lem : (t : Text) (e : E) → behind (x.hexmode_replace t e) ≤ behind e
    pub start_lem : (a b : ℕ) (e : E) → x.target_start (x.set_target a b e) ≡ a
    pub end_lem : (a b : ℕ) (e : E) → x.target_end (x.set_target a b e) ≡ b
    pub marker_lem : (a b : ℕ) (e : E) → x.line_end b'$' (x.set_target a b e) ≡ x.line_end b'$' e
    pub line_lem : (p : ℕ) (e : E) → p ≤ x.end_of_line p e

  module _ (l : IsEditor) where
    put_match-behind :
        (r : Bool) (t : Text) (k : ℕ) (a : E × Answer) → behind (put_match x r t k a).0 ≤ behind a.0
    unfolding put_match
    put_match-behind r t k (e, answer_yes) = ground (arith, l.hexmode_lem t e, l.replace_lem r t e)
    put_match-behind r t k (e, answer_no) = omega arith
    put_match-behind r t k (e, cancel) = omega arith

    asked-behind :
        (b : Bool) (t : Text) (e : E)
        → behind (if b then x.confirm s.pattern t e else (e, answer_yes)).0 ≤ behind e
    asked-behind true t e = l.confirm_lem s.pattern t e
    asked-behind false t e = omega arith

    written-behind :
        (b : Bool) (t : Text) (e : E) → behind (if b then x.write_target t e else e) ≤ behind e
    written-behind true t e = l.write_lem t e
    written-behind false t e = omega arith

    replace_match-behind :
        (r : Bool) (k : ℕ) (e : E) → behind (replace_match x r s k e).0 ≤ behind e
    unfolding replace_match
    replace_match-behind r k e = le_trans (put_match-behind r _ k _) (
        le_trans (asked-behind (is_confirmed s) _ _)
          (written-behind (needs_build s.replacement) _ e))

    -- The target after a round is smaller than what stood behind the match.
    advance-size :
        (e : E)
        → (x.target_end (advance x s e) - x.target_start (advance x s e) ≤ behind e)
          × (x.target_end (advance x s e) ≡ x.line_end b'$' (advance x s e))
    unfolding advance
    advance-size e =
        let p = if is_global s then x.target_end e else x.end_of_line (x.target_end e) e in
        ground (
          arith,
          l.start_lem p (x.line_end b'$' e) e,
          l.end_lem p (x.line_end b'$' e) e,
          l.marker_lem p (x.line_end b'$' e) e,
          l.line_lem (x.target_end e) e,
        )

    -- The loop ends, whatever is answered, where the pattern has no empty match, and where what is
    -- put in the place of a match, or shown to ask for it, leaves no more chars between the target
    -- and the end of the line of the marker $ than were there: the chars of the target, and one
    -- more, are enough rounds.
    pub substitute_matches-ends :
        (n : ℕ) (regex : Bool) (k : ℕ) (c : Bool) (e : E)
        → x.target_end e ≡ x.line_end b'$' e
        → x.target_end e - x.target_start e < n
        → (r : E × ℕ) × (substitute_matches x n regex s k c e ≡ some r)
    unfolding substitute_matches
    substitute_matches-ends zero regex k c e h b = absurd (omega arith)
    substitute_matches-ends (suc n) regex k c e h b = elim (Option-cases (x.search s.pattern e)) [
      | inl q ↦ ((e, k), rw (substitute_matches, q) refl)
      | inr (f, q) ↦ elim (Bool-cases c) [
        | inl z ↦ ((f, k), rw (substitute_matches, q) (rw z refl))
        | inr z ↦
            let d = replace_match x regex s k f in
            let g = advance x s d.0 in
            elim (Bool-cases (leb (x.target_end g) (x.target_start g))) [
              | inl t ↦ ((g, d.1), rw (substitute_matches, q) (rw z (rw t refl)))
              | inr t ↦
                  let left = substitute_matches-ends n regex d.1 d.2 g (advance-size d.0).1 (
                    omega (
                      arith,
                      advance-size d.0,
                      replace_match-behind regex k f,
                      l.search_lem e f h q,
                    )) in
                  (left.0, rw (substitute_matches, q) (rw z (rw t left.1)))
            ]
      ]
    ]
