-- ===== src/HexMode/Buffer/Laws.antt =====
-- Turning hex mode on and off (src/stc/hexmode.cpp).
use wx_extension.Prelude.{
  ◌<◌, ◌≡◌, Bool, true, false, none, some, List, [], ◌∷◌, ◌++◌, Text, if◌then◌else◌, arith,
  append_assoc, refl, ◌∙◌,
}
use wx_extension.HexMode.Layout.{Hex, lines}
use wx_extension.HexMode.Layout.Rows.{lines-total}
use wx_extension.HexMode.Buffer.{
  begin_undo, apply_lexer, HexState, tell, Effect, shown, append_text, set_text, sync, activate,
  deactivate, set_mode, select_none, position_save, clear_text, position_restore, end_undo, styles,
  markers, brace_highlight, empty_undo, set_save_point,
}

-- What is shown for the whole buffer.
abbrev pub redrawn : Text → List Effect
redrawn out = select_none ∷ position_save ∷ clear_text ∷ shown out ∷ position_restore ∷ []

module _ (h : Hex) where
  pub set_text-lines :
      (text out : Text) (s : HexState)
      → lines h true text ≡ some out
      → s.is_active ≡ true
      → set_text h text s
        ≡ some
            (record s { buffer = text; buffer_original = text; effects = s.effects ++ redrawn out })
  unfolding set_text append_text
  set_text-lines text out s e a = ground (
    arith,
    append_assoc s.effects (select_none ∷ position_save ∷ clear_text ∷ []) (shown out ∷ []),
    append_assoc s.effects (select_none ∷ position_save ∷ clear_text ∷ shown out ∷ [])
        (position_restore ∷ []),
  )

  set_mode-on :
      (use_markers modified : Bool) (text out : Text) (s : HexState)
      → lines h true text ≡ some out
      → s.is_active ≡ false
      → (s₁ : HexState) × (set_mode h true use_markers modified true text s ≡ some (true, s₁))
        × (s₁.buffer ≡ text)
        × (s₁.is_active ≡ true)
  unfolding set_mode activate
  set_mode-on use_markers modified text out s e off =
      let s₀ =
        tell (begin_undo ∷ [])
          (tell (styles true ∷ []) (record (tell (markers false ∷ []) s) { is_active = true })) in
      (
        tell
            ((if modified then [] else empty_undo ∷ set_save_point ∷ [])
              ++ markers use_markers ∷ [])
            (tell (apply_lexer ∷ []) (record s₀ {
              buffer = text;
              buffer_original = text;
              effects = s₀.effects ++ redrawn out;
            })),
        ground (arith, set_text-lines text out s₀ e refl),
        refl,
        refl,
      )

  sync-on :
      (out : Text) (s : HexState)
      → lines h true s.buffer ≡ some out
      → s.is_active ≡ true
      → (s₂ : HexState) × (sync h s ≡ some (true, s₂))
        × (s₂.buffer ≡ s.buffer)
        × (s₂.is_active ≡ true)
  unfolding sync
  sync-on out s e a = (
    record s { buffer_original = s.buffer; effects = s.effects ++ redrawn out },
    ground (arith, set_text-lines s.buffer out s e a),
    refl,
    a,
  )

  abbrev pub left : Bool → HexState → List Effect
  left use_markers s =
      markers false
      ∷ styles false
      ∷ end_undo
      ∷ clear_text
      ∷ shown s.buffer
      ∷ brace_highlight none
      ∷ markers use_markers
      ∷ []

  set_mode-off :
      (use_markers : Bool) (text : Text) (s : HexState)
      → s.is_active ≡ true
      → (s₃ : HexState) × (set_mode h false use_markers true true text s ≡ some (true, s₃))
        × (s₃.buffer ≡ s.buffer)
        × (s₃.is_active ≡ false)
        × (s₃.effects ≡ s.effects ++ left use_markers s)
  unfolding set_mode deactivate
  set_mode-off use_markers text s a = (
    record s { is_active = false; effects = s.effects ++ left use_markers s },
    ground (
      arith,
      append_assoc s.effects (markers false ∷ []) (styles false ∷ []),
      append_assoc s.effects (markers false ∷ styles false ∷ [])
          (end_undo ∷ clear_text ∷ shown s.buffer ∷ []),
      append_assoc s.effects
          (markers false ∷ styles false ∷ end_undo ∷ clear_text ∷ shown s.buffer ∷ [])
          (brace_highlight none ∷ []),
      append_assoc s.effects
          (markers false
            ∷ styles false
            ∷ end_undo
            ∷ clear_text
            ∷ shown s.buffer
            ∷ brace_highlight none
            ∷ [])
          (markers use_markers ∷ []),
    ),
    refl,
    refl,
    refl,
  )

  set_mode-same :
      (on use_markers modified visual : Bool) (text : Text) (s : HexState)
      → s.is_active ≡ on
      → set_mode h on use_markers modified visual text s ≡ some (false, s)
  unfolding set_mode
  set_mode-same on use_markers modified visual text s e = ground arith

  -- For a line of at least one byte, a hex mode that is not active and a visual component that
  -- shows `text`: turning hex mode on succeeds and takes the text as the buffer, syncing then
  -- succeeds and keeps the buffer, and turning it off (here on a component that is modified)
  -- succeeds, keeps the buffer, and shows `text` again in a component that was cleared. Turning hex
  -- mode on once more before, or off once more behind, is refused and changes nothing.
  pub set_mode-round_trip :
      (use_markers modified : Bool) (text : Text) (s : HexState)
      → 0 < h.bytes_per_line
      → s.is_active ≡ false
      → (s₁ : HexState) × (s₂ : HexState) × (s₃ : HexState) × (set_mode h true use_markers modified
            true text s
          ≡ some (true, s₁))
        × (s₁.buffer ≡ text)
        × (sync h s₁ ≡ some (true, s₂))
        × (s₂.buffer ≡ text)
        × (set_mode h true use_markers modified true text s₂ ≡ some (false, s₂))
        × (set_mode h false use_markers true true text s₂ ≡ some (true, s₃))
        × (s₃.buffer ≡ text)
        × (s₃.effects
            ≡ s₂.effects
              ++ (markers false
                  ∷ styles false
                  ∷ end_undo
                  ∷ clear_text
                  ∷ shown text
                  ∷ brace_highlight none
                  ∷ markers use_markers
                  ∷ []))
        × (set_mode h false use_markers modified true text s₃ ≡ some (false, s₃))
  set_mode-round_trip use_markers modified text s p off =
      let (out, e) = lines-total h true text p in
      let (s₁, on_lem, b₁, a₁) = set_mode-on use_markers modified text out s e off in
      let (s₂, sync_lem, b₂, a₂) = sync-on out s₁ (rw b₁ e) a₁ in
      let (s₃, off_lem, b₃, a₃, e₃) = set_mode-off use_markers text s₂ a₂ in
      (
        s₁,
        s₂,
        s₃,
        on_lem,
        b₁,
        sync_lem,
        b₂ ∙ b₁,
        set_mode-same true use_markers modified true text s₂ a₂,
        off_lem,
        b₃ ∙ (b₂ ∙ b₁),
        rw (b₂ ∙ b₁) at e₃,
        set_mode-same false use_markers modified true text s₃ a₃,
      )
