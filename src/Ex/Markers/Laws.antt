-- ===== src/Ex/Markers/Laws.antt =====
-- The line of a marker that is added (src/vi/ex.cpp).
use wx_extension.Prelude.{
  ℕ, ◌≡◌, ◌≢◌, true, some, if◌then◌else◌, arith, lookup-put, eq_text_refl, Option-cases, inl, inr,
}
use wx_extension.Ex.Markers.{
  Component, Markers, key, visual_marker_delete, visual_marker_add, visual_marker_line,
  marker_number,
}

-- Where a handle that the component gives for a line leads to that line: adding a marker other than
-- '<' and '>', if it succeeds, makes it stand at the line.
visual_marker_line-add :
    {E : Type 0} (x : Component E) (m l : ℕ) (s : Markers E)
    → ((l n id : ℕ) (e : E) → (x.add l n e).0 ≡ some id → x.line id (x.add l n e).1 ≡ some l)
    → m ≢ b'<'
    → m ≢ b'>'
    → (visual_marker_add x m (some l) s).1 ≡ true
    → visual_marker_line x m (visual_marker_add x m (some l) s).0 ≡ some l
unfolding visual_marker_add visual_marker_line
visual_marker_line-add x m l s h a b t = elim (Option-cases (x.symbol s.component)) [
  | inl e ↦ ground arith
  | inr ((number, is_char), e) ↦
      let s1 = (visual_marker_delete x m s).0 in
      let r = if is_char then marker_number x m s1 else (number, s1) in
      elim (Option-cases (x.add l r.0 r.1.component).0) [
        | inl f ↦ ground (arith, e, f)
        | inr (id, f) ↦ ground (
          arith,
          e,
          f,
          h l r.0 id r.1.component f,
          lookup-put (key m) (key m) id r.1.identifiers,
          eq_text_refl (key m),
        )
      ]
]
