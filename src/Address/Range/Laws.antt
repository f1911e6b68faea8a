-- ===== src/Address/Range/Laws.antt =====
-- Where the lines of a range lie (src/vi/addressrange.cpp).
use wx_extension.Prelude.{
  ◌∙◌, ap, ltb, ℕ, suc, ◌+◌, ◌-◌, ◌≤◌, true, ◌&&◌, [], ◌∷◌, Text, if◌then◌else◌, ℤ, pos, negsuc,
  leb_ℤ, ltb_ℤ, ◌≤ℤ◌, ◌+ℤ◌, ◌-ℤ◌, ◌≡◌, arith, take, drop, min, Option-cases, inl, inr,
}
use wx_extension.Core.Text.{find_char}
use wx_extension.Address.Line.{View, Address, address_of, get_line, set_line}
use wx_extension.Address.Line.Laws.{
  Lines, IsWithin, get_line-IsWithin, set_line-line, get_line-set_line, set_line-within,
}
use wx_extension.Address.Range.{
  Range, Screen, empty_range, set_lines, set_address, set_texts, set_from, range_of_lines, range_of,
  is_ok,
}

ordered :
    (b n : ℤ) → (ltb_ℤ (pos 0) b && (ltb_ℤ (pos 0) n && leb_ℤ b n)) ≡ true → (pos 1 ≤ℤ b) × (b ≤ℤ n)
ordered b n h = ground arith

module _ {E : Type 0} (v : View E) (e : E) (c : ℕ) (lines : Lines v e c) where
  set_address-line :
      (t : Text) (a : Address) → a.line ≤ℤ pos c → (set_address v t a e).line ≤ℤ pos c
  unfolding set_address
  set_address-line t a h = ground (
    arith,
    set_line-line v e c lines (get_line v (record a { address = t }) e) (record a { address = t }),
  )

  -- Both lines of the range are 0, for no address, or lines of the editor.
  abbrev AreLines : Range → Type 0
  AreLines r = (r.begin.line ≤ℤ pos c) × (r.end.line ≤ℤ pos c)

  set_texts-AreLines : (b n : Text) (r : Range) → AreLines r → AreLines (set_texts v b n r e)
  unfolding set_texts
  set_texts-AreLines b n r h = (set_address-line b r.begin h.0, set_address-line n r.end h.1)

  range_of-AreLines : (s : Screen E) (t : Text) → AreLines (range_of v s t e)
  unfolding range_of set_lines
  range_of-AreLines s t =
      let none_set : AreLines empty_range = (omega arith, omega arith) in
      let top = s.first_visible_line e in
      elim (Option-cases (find_char b',' t)) [
        | inl n ↦ ground (
          arith,
          set_texts-AreLines (b'1' ∷ []) (b'$' ∷ []) empty_range none_set,
          set_texts-AreLines t t empty_range none_set,
          set_line-line v e c lines (pos (top + 1)) (address_of []),
          set_line-line v e c lines (pos (top + s.lines_on_screen e + 1)) (address_of []),
        )
        | inr (i, h) ↦ ground (
          arith,
          set_texts-AreLines (b'1' ∷ []) (b'$' ∷ []) empty_range none_set,
          set_texts-AreLines (take i t) (drop (i + 1) t) empty_range none_set,
          set_line-line v e c lines (pos (top + 1)) (address_of []),
          set_line-line v e c lines (pos (top + s.lines_on_screen e + 1)) (address_of []),
        )
      ]

  -- In an editor with a known count of lines, where the current line and all matches are lines of
  -- it: the lines of a range that is written as a text lie between 0 and the line count; if the
  -- range is ok, they lie between 1 and the line count, the begin not behind the end.
  pub range_of-IsWithin :
      (s : Screen E) (t : Text)
      → let r = range_of v s t e in
        IsWithin c (get_line v r.begin e)
        × IsWithin c (get_line v r.end e)
        × (is_ok v r e ≡ true
            → (pos 1 ≤ℤ get_line v r.begin e)
              × (get_line v r.begin e ≤ℤ get_line v r.end e)
              × (get_line v r.end e ≤ℤ pos c))
  unfolding is_ok
  range_of-IsWithin s t =
      let (b, n) = range_of-AreLines s t in
      let r = range_of v s t e in
      let (b0, bc) = get_line-IsWithin v e c lines r.begin b in
      let (n0, nc) = get_line-IsWithin v e c lines r.end n in
      (
        (b0, bc),
        (n0, nc),
        λ ok. let (b1, bn) = ordered (get_line v r.begin e) (get_line v r.end e) ok in (b1, bn, nc),
      )

  set_from-first :
      (a b : Address) (n : ℤ)
      → get_line v (set_from v a b n e).0 e ≡ pos (v.line_from_position (v.current_pos e) e + 1)
  unfolding set_from
  set_from-first a b n =
      let l = v.line_from_position (v.current_pos e) in
      get_line-set_line v e c lines (pos (l e + 1)) a
      ∙ ground (arith, set_line-within v e c lines (l e) a, lines.current)

  set_from-second :
      (a b : Address) (n : ℤ)
      → get_line v (set_from v a b n e).1 e
        ≡ (set_line v (pos (v.line_from_position (v.current_pos e) e + 1) +ℤ n -ℤ pos 1) b e).line
  unfolding set_from
  set_from-second a b n =
      get_line-set_line v e c lines _ b
      ∙ ap (λ l. (set_line v (l +ℤ n -ℤ pos 1) b e).line) (set_from-first a b n)

  range_of_lines-positive :
      (k : ℕ)
      → let r = set_from v (address_of []) (address_of []) (pos (suc k)) e in
        range_of_lines v (pos (suc k)) e ≡ record { begin = r.0; end = r.1 }
  unfolding range_of_lines
  range_of_lines-positive k = ground arith

  range_of_lines-negative :
      (k : ℕ)
      → let r = set_from v (address_of []) (address_of []) (negsuc k) e in
        range_of_lines v (negsuc k) e ≡ record { begin = r.1; end = r.0 }
  unfolding range_of_lines
  range_of_lines-negative k = ground arith

  last_line :
      (l k : ℕ) (a : Address)
      → (set_line v (pos (l + 1) +ℤ pos (suc k) -ℤ pos 1) a e).line ≡ pos (min (l + 1 + k) c)
  unfolding set_line
  last_line l k a = ground (arith, lines.counted)

  first_line :
      (l k : ℕ) (a : Address)
      → l + 1 ≤ c
      → (set_line v (pos (l + 1) +ℤ negsuc k -ℤ pos 1) a e).line
        ≡ pos (if ltb (suc k + 1) (l + 1) then l + 1 - (suc k + 1) else 1)
  unfolding set_line
  first_line l k a h = ground (arith, lines.counted)

  -- In an editor with a known count of lines, where the current line is one of them: a range of suc
  -- k lines starts at the current line and ends k lines further, or at the last line. A range of
  -- -(suc k) lines ends at the current line, and starts suc k + 1 lines above it, or at the first
  -- line, so it may have two lines more than it is asked for.
  pub range_of_lines-size :
      (k : ℕ)
      → let line = v.line_from_position (v.current_pos e) e + 1 in
        let forward = range_of_lines v (pos (suc k)) e in
        let backward = range_of_lines v (negsuc k) e in
        (get_line v forward.begin e ≡ pos line)
        × (get_line v forward.end e ≡ pos (min (line + k) c))
        × (get_line v backward.end e ≡ pos line)
        × (get_line v backward.begin e
            ≡ pos (if ltb (suc k + 1) line then line - (suc k + 1) else 1))
  range_of_lines-size k =
      let a = address_of [] in
      let l = v.line_from_position (v.current_pos e) e in
      (
        ap (λ r. get_line v r.begin e) (range_of_lines-positive k)
            ∙ set_from-first a a (pos (suc k)),
        ap (λ r. get_line v r.end e) (range_of_lines-positive k)
            ∙ set_from-second a a (pos (suc k))
            ∙ last_line l k a,
        ap (λ r. get_line v r.end e) (range_of_lines-negative k) ∙ set_from-first a a (negsuc k),
        ap (λ r. get_line v r.begin e) (range_of_lines-negative k)
            ∙ set_from-second a a (negsuc k)
            ∙ first_line l k a lines.current,
      )
