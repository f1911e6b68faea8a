-- ===== src/HexMode/Edit/Laws.antt =====
-- What an insertion and an erasure leave in the buffer (src/stc/hexmode-line.cpp).
use wx_extension.Prelude.{
  ℕ, zero, suc, ◌+◌, ◌<◌, ◌≤◌, ◌≡◌, true, false, some, [], ◌∷◌, ◌++◌, Text, length, take, drop,
  arith, refl, ap, ◌∙◌, length-append, length-take,
}
use wx_extension.HexMode.Layout.{Hex}
use wx_extension.HexMode.Layout.Rows.{lines-total, drop-before}
use wx_extension.HexMode.Fields.{HexLine, is_ascii_field, is_readonly, buffer_index}
use wx_extension.HexMode.Buffer.{HexState, set_text}
use wx_extension.HexMode.Buffer.Laws.{redrawn, set_text-lines}
use wx_extension.HexMode.Edit.{Component, erase, insert, insert_ascii, insert_bytes, move_caret}

drop-insert :
    (i : ℕ) (b text : Text)
    → i ≤ length b
    → take i (take i b ++ (text ++ drop i b))
        ++ drop (i + length text) (take i b ++ (text ++ drop i b))
      ≡ b
drop-insert zero b text h =
    ap (λ k. drop k (text ++ b)) {x = 0 + length text} {y = length text} (omega arith)
    ∙ drop-before text b
drop-insert (suc i) [] text h = absurd (omega arith)
drop-insert (suc i) (c ∷ b) text h =
    ap
      (λ k.
        c
        ∷ (take i (take i b ++ (text ++ drop i b))
            ++ drop k (c ∷ (take i b ++ (text ++ drop i b)))))
      {x = suc i + length text} {y = suc (i + length text)} (omega arith)
    ∙ ap (c ∷◌) (drop-insert i b text (omega arith))

module _ (h : Hex) (positive : 0 < h.bytes_per_line) where
  -- The buffer behind set_text.
  set_text-total :
      (text : Text) (s : HexState)
      → s.is_active ≡ true
      → (s' : HexState) × (set_text h text s ≡ some s') × (s'.buffer ≡ text) × (s'.is_active ≡ true)
  set_text-total text s a =
      let (out, e) = lines-total h true text positive in
      (
        record s { buffer = text; buffer_original = text; effects = s.effects ++ redrawn out },
        set_text-lines h text out s e a,
        refl,
        a,
      )

  insert_ascii-total :
      (v : Component) (index : ℕ) (text : Text) (l : HexLine) (s : HexState)
      → s.is_active ≡ true
      → index ≤ length s.buffer
      → (s' : HexState) × (insert_ascii h v index text l s ≡ some (true, s'))
        × (s'.buffer ≡ take index s.buffer ++ (text ++ drop index s.buffer))
        × (s'.is_active ≡ true)
  unfolding insert_ascii insert_bytes
  insert_ascii-total v index text l s a b =
      let text' = take index s.buffer ++ (text ++ drop index s.buffer) in
      let (s₂, e, q, a₂) = set_text-total text' (record s { buffer = text' }) a in
      (move_caret h v (length text) l s₂, ground arith, q, a₂)

  erase-index :
      (index count : ℕ) (l : HexLine) (s : HexState)
      → s.is_active ≡ true
      → buffer_index h l ≡ some index
      → is_readonly h l ≡ false
      → index < length s.buffer
      → (s' : HexState) × (erase h count true l s ≡ some (true, s'))
        × (s'.buffer ≡ take index s.buffer ++ drop (index + count) s.buffer)
        × (s'.is_active ≡ true)
  unfolding erase
  erase-index index count l s a b r i =
      let text' = take index s.buffer ++ drop (index + count) s.buffer in
      let (s₂, e, q, a₂) = set_text-total text' (record s { buffer = text' }) a in
      (s₂, ground arith, q, a₂)

  -- For a line of at least one byte, an active hex mode, and a column in the ascii field of a byte
  -- or of the end of the buffer: inserting a text that is not empty succeeds and puts it before the
  -- byte, and erasing as many bytes at the same place succeeds and gives the buffer back.
  pub erase-insert :
      (v : Component) (text : Text) (l : HexLine) (s : HexState) (index : ℕ)
      → s.is_active ≡ true
      → is_ascii_field h l ≡ true
      → buffer_index h l ≡ some index
      → index ≤ length s.buffer
      → 0 < length text
      → (s₁ : HexState) × (s₂ : HexState) × (insert h v text l s ≡ some (true, s₁))
        × (s₁.buffer ≡ take index s.buffer ++ (text ++ drop index s.buffer))
        × (erase h (length text) true l s₁ ≡ some (true, s₂))
        × (s₂.buffer ≡ s.buffer)
  unfolding insert is_ascii_field is_readonly
  erase-insert v text l s index a f b i t =
      let (s₁, e, q, a₁) = insert_ascii-total v index text l s a i in
      let (s₂, e₂, q₂, _) = erase-index index (length text) l s₁ a₁ b (ground arith) (
        omega (
          arith,
          q,
          ap length q,
          length-append (take index s.buffer) (text ++ drop index s.buffer),
          length-append text (drop index s.buffer),
          length-take index s.buffer,
        )) in
      (s₁, s₂, ground arith, q, e₂, q₂ ∙ (rw q (drop-insert index s.buffer text i)))
