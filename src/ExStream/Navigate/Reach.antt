-- ===== src/ExStream/Navigate/Reach.antt =====
-- Where going forward over the stream ends (src/vi/ex-stream.cpp: goto_line).
use wx_extension.Prelude.{
  ℕ, zero, suc, ◌<◌, ◌≡◌, ◌⊎◌, true, false, some, arith, refl, ◌∙◌, ℤ, pos, negsuc, ltb_ℤ, eqb_ℤ,
  Bool-cases, inl, inr, ◌+ℤ◌, ◌-ℤ◌, pos_part,
}
use wx_extension.ExStream.State.{State, Source}
use wx_extension.ExStream.Navigate.{get_next_line, forward, goto_line, go_forward}
use wx_extension.ExStream.Navigate.Laws.{
  HasRoom, Reads, get_next_line-Reads, HasRoom-Reads, Reads-trans, Reads-refl,
}

-- The line is reached, or the end of the stream is: a last call of get_next_line failed.
abbrev pub Reached : ℕ → State → Type 0
Reached target s' = (s'.line_no ≡ pos target) ⊎ ((t : State) × (get_next_line t ≡ some (false, s')))

-- The lines from `line` on to the target.
abbrev Distance : ℕ → ℕ → ℤ → Type 0
Distance rounds target line = line +ℤ pos rounds ≡ pos target

Distance-suc :
    (rounds target : ℕ) (line : ℤ)
    → Distance (suc rounds) target line
    → (ltb_ℤ line (pos target) ≡ true) × Distance rounds target (line +ℤ pos 1)
Distance-suc rounds target (pos n) e = ground arith
Distance-suc rounds target (negsuc n) e = ground arith

Distance-zero : (target : ℕ) (line : ℤ) → Distance 0 target line → line ≡ pos target
Distance-zero target (pos n) e = ground arith
Distance-zero target (negsuc n) e = ground arith

Distance-pos_part :
    (target : ℕ) (line : ℤ)
    → ltb_ℤ (pos target) line ≡ false
    → Distance (pos_part (pos target -ℤ line)) target line
Distance-pos_part target (pos n) e = ground arith
Distance-pos_part target (negsuc n) e = ground arith

forward-Reached :
    (rounds target : ℕ) (s : State)
    → HasRoom s
    → Distance rounds target s.line_no
    → (s' : State) × (forward rounds target s ≡ some s') × Reads s s' × Reached target s'
unfolding forward
forward-Reached zero target s h d = (s, refl, Reads-refl s, inl (Distance-zero target s.line_no d))
forward-Reached (suc rounds) target s h d =
    let (before, d') = Distance-suc rounds target s.line_no d in
    let (r, q, k, l) = get_next_line-Reads s h in
    elim (Bool-cases r.0) [
      | inr b ↦ (r.1, ground arith, k, inr (s, ground arith))
      | inl b ↦
          let (s', p, k', reached) =
            forward-Reached rounds target r.1 (HasRoom-Reads k h) (ground arith) in
          (s', ground arith, Reads-trans k k', reached)
    ]

ltb_ℤ-far_back :
    (target : ℕ) (line : ℤ)
    → ltb_ℤ (pos target) line ≡ false
    → ltb_ℤ (pos target) (line -ℤ pos 1000) ≡ false
ltb_ℤ-far_back target (pos n) e = ground arith
ltb_ℤ-far_back target (negsuc n) e = ground arith

eqb_ℤ-eq : (target : ℕ) (line : ℤ) → eqb_ℤ (pos target) line ≡ true → line ≡ pos target
eqb_ℤ-eq target (pos n) e = ground arith
eqb_ℤ-eq target (negsuc n) e = ground arith

goto_line-forward :
    (target : ℕ) (s : State) {w : Source}
    → s.source ≡ some w
    → 0 < target
    → ltb_ℤ (pos target) s.line_no ≡ false
    → eqb_ℤ (pos target) s.line_no ≡ false
    → goto_line target s ≡ go_forward target s
unfolding goto_line
goto_line-forward target s o t f n = ground (arith, ltb_ℤ-far_back target s.line_no f)

goto_line-same :
    (target : ℕ) (s : State) {w : Source}
    → s.source ≡ some w
    → eqb_ℤ (pos target) s.line_no ≡ true
    → goto_line target s ≡ some s
unfolding goto_line
goto_line-same target s o n = ground arith

-- On a stream that is open and whose line buffer holds at least a line size of chars, which is not
-- 0: going to a line that is neither line 0 nor before the current line gives a result, touches
-- nothing but the get position, the line buffer and the numbers and flags of lines, and ends at
-- that line, or where get_next_line found no more lines.
pub goto_line-Reached :
    (target : ℕ) (s : State) (w : Source)
    → s.source ≡ some w
    → HasRoom s
    → 0 < target
    → ltb_ℤ (pos target) s.line_no ≡ false
    → (s' : State) × (goto_line target s ≡ some s') × Reads s s' × Reached target s'
goto_line-Reached target s w o h t f =
    let (s', e, k, reached) =
      forward-Reached (pos_part (pos target -ℤ s.line_no)) target s h
        (Distance-pos_part target s.line_no f) in
    elim (Bool-cases (eqb_ℤ (pos target) s.line_no)) [
      | inl b ↦
          (s, goto_line-same target s {w = w} o b, Reads-refl s, inl (eqb_ℤ-eq target s.line_no b))
      | inr b ↦ (s', goto_line-forward target s {w = w} o t f b ∙ e, k, reached)
    ]
