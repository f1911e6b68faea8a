-- ===== src/Address/RangeCommands/Laws.antt =====
-- Where a range goes to when it is moved (src/vi/addressrange.cpp).
use wx_extension.Prelude.{
  leb, ℕ, suc, ◌≤◌, ◌<◌, [], ◌∷◌, length, concat, concat-append, sym, Bool, true, false, not, ◌&&◌,
  ◌||◌, List, ◌++◌, Text, take, drop, ℤ, pos, leb_ℤ, ltb_ℤ, eqb_ℤ, ◌-ℤ◌, ◌≡◌, refl, ap, ◌∙◌, arith,
}
use wx_extension.Core.Text.{is_empty}
use wx_extension.Address.Line.{Address, get_line}
use wx_extension.Address.Range.{Range, is_ok}
use wx_extension.Address.RangeCommands.{
  Component, select_range, erase_range, is_refused, general, move_range, delete_written,
  cut_selection, current_register,
}
use wx_extension.Macros.Registers.{Registers}
use wx_extension.Ex.Buffers.{register_text, yank_selection, set_registers_delete}
use wx_extension.Ex.Buffers.Laws.{cut-register_text}
use mathlib.Core.Path.{subst}

-- What is relied on of a visual component that may be edited, where no register is chosen, and that
-- holds lines, each with its end: a selection of lines has their texts and is replaced by nothing,
-- a text is added at the start of a line, and the registers, the markers and the caret change no
-- line.
pub record HoldsLines {E : Type 0} (x : Component E) (lines : E → List Text) : Type 0 where
  pub visual : (e : E) → x.view.is_visual e ≡ true
  pub editable : (e : E) → (x.is_readonly e || x.is_hexmode e) ≡ false
  pub unchosen : (e : E) → x.chosen e ≡ 0
  pub selected_lines :
      (b n : ℕ) (e : E)
      → b < n
      → n ≤ length (lines e)
      → x.selected (x.set_selection (pos b) (pos n) e) ≡ concat (drop b (take n (lines e)))
  pub cut_lines :
      (b n : ℕ) (r : Registers) (e : E)
      → b < n
      → n ≤ length (lines e)
      → lines (x.replace_selection [] (x.set_registers r (x.set_selection (pos b) (pos n) e)))
        ≡ take b (lines e) ++ drop n (lines e)
  pub cut_registers :
      (t : Text) (r : Registers) (e : E)
      → x.registers (x.replace_selection t (x.set_registers r e)) ≡ r
  pub stored_lines : (r : Registers) (e : E) → lines (x.set_registers r e) ≡ lines e
  pub stored_registers : (r : Registers) (e : E) → x.registers (x.set_registers r e) ≡ r
  pub kept_lines : (m : ℕ) (e : E) → lines (x.marker_delete m e) ≡ lines e
  pub kept_registers : (m : ℕ) (e : E) → x.registers (x.marker_delete m e) ≡ x.registers e
  pub gone_registers : (k : ℕ) (e : E) → x.registers (x.goto_line (pos k) e) ≡ x.registers e
  pub added :
      (k : ℕ) (t : Text) (e : E)
      → k ≤ length (lines e)
      → concat (lines (x.add_text t (x.goto_line (pos k) e)))
        ≡ concat (take k (lines e)) ++ (t ++ concat (drop k (lines e)))

-- A list with the part from `b` to `n` taken out and put in at `k` of what is left.
abbrev pub moved_to : ℕ → ℕ → ℕ → List Text → List Text
moved_to b n k l =
    let rest = take b l ++ drop n l in take k rest ++ (drop b (take n l) ++ drop k rest)

module _ {E : Type 0} (x : Component E) (lines : E → List Text) (holds : HoldsLines x lines) where
  delete_written-lines : (t : Text) (e : E) → lines (delete_written x t e) ≡ lines e
  unfolding delete_written
  delete_written-lines [] e = refl
  delete_written-lines (q ∷ []) e = refl
  delete_written-lines (q ∷ m ∷ t) e = ground (arith, holds.kept_lines m e)

  delete_written-registers : (t : Text) (e : E) → x.registers (delete_written x t e) ≡ x.registers e
  unfolding delete_written
  delete_written-registers [] e = refl
  delete_written-registers (q ∷ []) e = refl
  delete_written-registers (q ∷ m ∷ t) e = ground (arith, holds.kept_registers m e)

  begin_before : (b : ℕ) → (pos (suc b) -ℤ pos 1) ≡ pos b
  begin_before b = ground arith

  is_ok-lines :
      (b n : ℕ) (r : Range) (e : E)
      → b ≤ n
      → get_line x.view r.begin e ≡ pos (suc b)
      → get_line x.view r.end e ≡ pos (suc n)
      → is_ok x.view r e ≡ true
  unfolding is_ok
  is_ok-lines b n r e h hb hn =
      ap
        (λ l.
          ltb_ℤ (pos 0) l
          && (ltb_ℤ (pos 0) (get_line x.view r.end e) && leb_ℤ l (get_line x.view r.end e)))
        hb
      ∙ ap (λ l. ltb_ℤ (pos 0) (pos (suc b)) && (ltb_ℤ (pos 0) l && leb_ℤ (pos (suc b)) l)) hn
      ∙ ground arith

  select_range-lines :
      (b n : ℕ) (r : Range) (e : E)
      → b ≤ n
      → is_empty (x.selected e) ≡ true
      → get_line x.view r.begin e ≡ pos (suc b)
      → get_line x.view r.end e ≡ pos (suc n)
      → select_range x r e ≡ (x.set_selection (pos b) (pos (suc n)) e, true)
  unfolding select_range
  select_range-lines b n r e h s hb hn =
      rw (s, is_ok-lines b n r e h hb hn, hb, hn, begin_before b) refl

  erase_range-cut :
      (b n : ℕ) (r : Range) (e : E)
      → b ≤ n
      → is_empty (x.selected e) ≡ true
      → get_line x.view r.begin e ≡ pos (suc b)
      → get_line x.view r.end e ≡ pos (suc n)
      → erase_range x r e ≡ (
        delete_written x r.end.address (
            delete_written x r.begin.address
              (cut_selection x (x.set_selection (pos b) (pos (suc n)) e))),
        true,
      )
  unfolding erase_range
  erase_range-cut b n r e h s hb hn =
      rw (holds.visual e, holds.editable e, select_range-lines b n r e h s hb hn) refl

  abbrev among : ℕ → ℤ → ℤ → Bool
  among d f g = eqb_ℤ (pos (suc d)) (pos 0) || (leb_ℤ f (pos (suc d)) && leb_ℤ (pos (suc d)) g)

  outside :
      (b n d : ℕ)
      → (leb b d && leb d n) ≡ false
      → (eqb_ℤ (pos (suc d)) (pos 0)
          || (leb_ℤ (pos (suc b)) (pos (suc d)) && leb_ℤ (pos (suc d)) (pos (suc n))))
        ≡ false
  outside b n d h = ground arith

  is_refused-outside :
      (b n d : ℕ) (r : Range) (e : E)
      → b ≤ n
      → (leb b d && leb d n) ≡ false
      → get_line x.view r.begin e ≡ pos (suc b)
      → get_line x.view r.end e ≡ pos (suc n)
      → is_refused x (pos (suc d)) r e ≡ false
  unfolding is_refused
  is_refused-outside b n d r e h o hb hn =
      let f = get_line x.view r.begin e in
      let g = get_line x.view r.end e in
      ap (λ q. q || (not (is_ok x.view r e) || among d f g)) (holds.editable e)
      ∙ ap (λ q. not q || among d f g) (is_ok-lines b n r e h hb hn)
      ∙ ap (λ l. among d l g) hb
      ∙ ap (λ l. among d (pos (suc b)) l) hn
      ∙ outside b n d o

  move_range-moved :
      (b n d : ℕ) (a : Address) (r : Range) (e : E)
      → b ≤ n
      → (leb b d && leb d n) ≡ false
      → is_empty (x.selected e) ≡ true
      → get_line x.view r.begin e ≡ pos (suc b)
      → get_line x.view r.end e ≡ pos (suc n)
      → get_line x.view a e ≡ pos (suc d)
      → let e1 = x.goto_line (pos d) (erase_range x r e).0 in
        move_range x a r e ≡ (x.add_text (current_register x e1) e1, true)
  unfolding move_range general
  move_range-moved b n d a r e h o s hb hn ha =
      rw
        (
          ha,
          is_refused-outside b n d r e h o hb hn,
          erase_range-cut b n r e h s hb hn,
          begin_before d,
        )
        refl

  -- What a cut of lines leaves: the other lines, and their text in the register.
  cut_selection-lines :
      (b n : ℕ) (e : E)
      → b < n
      → n ≤ length (lines e)
      → is_empty (concat (drop b (take n (lines e)))) ≡ false
      → let c = cut_selection x (x.set_selection (pos b) (pos n) e) in
        (lines c ≡ take b (lines e) ++ drop n (lines e))
        × (register_text 0 (x.registers c) ≡ concat (drop b (take n (lines e))))
  unfolding cut_selection
  cut_selection-lines b n e h k f =
      let s = x.set_selection (pos b) (pos n) e in
      let t = concat (drop b (take n (lines e))) in
      let r = (yank_selection (x.chosen s) b'0' (x.selected s) (x.registers s)).0 in
      (
        holds.stored_lines _ (x.replace_selection [] (x.set_registers r s))
            ∙ holds.cut_lines b n r e h k,
        ap (register_text 0) (
              holds.stored_registers _ (x.replace_selection [] (x.set_registers r s))
              ∙ ap (set_registers_delete (x.selected s)) (holds.cut_registers [] r s))
            ∙ ap
                (λ c. register_text 0 (
                  set_registers_delete (x.selected s)
                    (yank_selection c b'0' (x.selected s) (x.registers s)).0))
                (holds.unchosen s)
            ∙ ap
                (λ u.
                  register_text 0
                    (set_registers_delete u (yank_selection 0 b'0' u (x.registers s)).0))
                (holds.selected_lines b n e h k)
            ∙ cut-register_text t (x.registers s) f,
      )

  -- Moving the lines b + 1 to n + 1 of a component that holds lines, and has these, where nothing
  -- is selected, no register is chosen and the lines are not all empty, to a line d + 1 that is not
  -- among them and is at most one behind the last line of what is left, succeeds: they are taken
  -- out, and their text stands before the line d + 1 of what is left.
  pub move_range-lines :
      (b n d : ℕ) (a : Address) (r : Range) (e : E)
      → b ≤ n
      → suc n ≤ length (lines e)
      → d ≤ length (take b (lines e) ++ drop (suc n) (lines e))
      → is_empty (concat (drop b (take (suc n) (lines e)))) ≡ false
      → (leb b d && leb d n) ≡ false
      → is_empty (x.selected e) ≡ true
      → get_line x.view r.begin e ≡ pos (suc b)
      → get_line x.view r.end e ≡ pos (suc n)
      → get_line x.view a e ≡ pos (suc d)
      → ((move_range x a r e).1 ≡ true)
        × (concat (lines (move_range x a r e).0) ≡ concat (moved_to b (suc n) d (lines e)))
  unfolding current_register
  move_range-lines b n d a r e h u v f o s hb hn ha =
      let m = move_range-moved b n d a r e h o s hb hn ha in
      let c = cut_selection x (x.set_selection (pos b) (pos (suc n)) e) in
      let c1 = delete_written x r.begin.address c in
      let e1 = delete_written x r.end.address c1 in
      let cut = erase_range-cut b n r e h s hb hn in
      let (left, stored) = cut_selection-lines b (suc n) e (omega arith) u f in
      let rest = take b (lines e) ++ drop (suc n) (lines e) in
      let t = concat (drop b (take (suc n) (lines e))) in
      let text : lines e1 ≡ rest =
        delete_written-lines r.end.address c1 ∙ delete_written-lines r.begin.address c ∙ left in
      let e2 = x.goto_line (pos d) e1 in
      let same : x.registers e2 ≡ x.registers c =
        holds.gone_registers d e1
        ∙ delete_written-registers r.end.address c1
        ∙ delete_written-registers r.begin.address c in
      let register : current_register x e2 ≡ t =
        ap (λ k. register_text k (x.registers e2)) (holds.unchosen e2)
        ∙ ap (register_text 0) same
        ∙ stored in
      (
        ap (λ q. q.1) m,
        ap (λ q. concat (lines q.0)) m
            ∙ ap
                (λ (q : E × Bool). concat (
                  lines (
                    x.add_text (current_register x (x.goto_line (pos d) q.0))
                      (x.goto_line (pos d) q.0))))
                cut
            ∙ holds.added d (current_register x e2) e1 (subst (λ l. d ≤ length l) (sym text) v)
            ∙ ap (λ l. concat (take d l) ++ (current_register x e2 ++ concat (drop d l))) text
            ∙ ap (λ w. concat (take d rest) ++ (w ++ concat (drop d rest))) register
            ∙ sym (
                concat-append (take d rest) (drop b (take (suc n) (lines e)) ++ drop d rest)
                ∙ ap (concat (take d rest) ++◌)
                    (concat-append (drop b (take (suc n) (lines e))) (drop d rest))),
      )
