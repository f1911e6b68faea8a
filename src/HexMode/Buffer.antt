-- ===== src/HexMode/Buffer.antt =====
-- The buffer of hex mode (src/stc/hexmode.cpp: append_text, set_text, sync, set, undo). `none` is a
-- loop that does not end.
pub mod Laws
use wx_extension.Prelude.{
  ◌>>=◌, ℕ, ◌+◌, Bool, true, false, not, Option, none, some, List, [], ◌∷◌, ◌++◌, Text,
  if◌then◌else◌,
}
use wx_extension.HexMode.Layout.{Hex, lines}

-- What the component is told. `shown` is append_text with lines of the hex view or, behind a
-- deactivation, the buffer itself; `replaced` is Replace of a part of the text.
pub data Effect : Type 0 where
  select_none position_save clear_text position_restore : Effect
  shown : Text → Effect
  replaced : ℕ → ℕ → Text → Effect
  set_current_pos set_target_end : ℕ → Effect
  goto_line : ℕ → Effect
  set_focus : Effect
  markers : Bool → Effect
  styles : Bool → Effect
  begin_undo end_undo empty_undo set_save_point : Effect
  brace_highlight : Option (ℕ × ℕ) → Effect
  apply_lexer : Effect

pub record HexState : Type 0 where
  pub is_active : Bool
  pub buffer : Text
  pub buffer_original : Text
  pub effects : List Effect

abbrev pub tell : List Effect → HexState → HexState
tell es s = record s { effects = s.effects ++ es }

module _ (h : Hex) where
  unfoldable pub append_text : Text → HexState → Option HexState
  append_text text s = elim s.is_active [
    | false ↦ some s
    | true ↦ (do
      out ← lines h true text
      some (
          tell (shown out ∷ [])
            (record s { buffer = s.buffer ++ text; buffer_original = s.buffer ++ text })))
  ]

  unfoldable pub set_text : Text → HexState → Option HexState
  unfolding append_text
  set_text text s = elim s.is_active [
    | false ↦ some s
    | true ↦ (do
      s' ← append_text text (
          tell (select_none ∷ position_save ∷ clear_text ∷ [])
            (record s { buffer = []; buffer_original = [] }))
      some (tell (position_restore ∷ []) s'))
  ]

  unfoldable pub sync : HexState → Option (Bool × HexState)
  unfolding set_text
  sync s = elim s.is_active [
    | false ↦ some (false, s)
    | true ↦ (do s' ← set_text s.buffer s; some (true, s'))
  ]

  -- `visual` is is_visual of the component, and `text` its text. `styles` is the symbol for control
  -- chars, the edge, and what is shown of ends of lines and of white space.
  unfoldable pub activate : Bool → Text → HexState → Option HexState
  unfolding set_text
  activate visual text s =
      let s₁ = tell (styles true ∷ []) (record s { is_active = true }) in
      (do
        s₂ ← elim visual [ true ↦ set_text text (tell (begin_undo ∷ []) s₁) | false ↦ some s₁ ]
        some (tell (apply_lexer ∷ []) s₂))

  unfoldable pub deactivate : Bool → HexState → HexState
  deactivate visual s =
      let s₁ = tell (styles false ∷ []) (record s { is_active = false }) in
      tell (brace_highlight none ∷ [])
        (if visual then tell (end_undo ∷ clear_text ∷ shown s.buffer ∷ []) s₁ else s₁)

  abbrev pub same_mode : Bool → Bool → Bool
  same_mode true b = b
  same_mode false b = not b

  -- set(on, use_modification_markers), where `modified` is GetModify of the component.
  unfoldable pub set_mode : Bool → Bool → Bool → Bool → Text → HexState → Option (Bool × HexState)
  unfolding activate deactivate
  set_mode on use_markers modified visual text s = elim (same_mode s.is_active on) [
    | true ↦ some (false, s)
    | false ↦
        let s₁ = tell (markers false ∷ []) s in
        (do
          s₂ ← elim on [ true ↦ activate visual text s₁ | false ↦ some (deactivate visual s₁) ]
          some (
            true,
            tell
                ((if modified then [] else empty_undo ∷ set_save_point ∷ [])
                  ++ markers use_markers ∷ [])
                s₂,
          ))
  ]

-- undo(), where `hex_fields` says that the text is longer than the hex fields of a line and starts
-- with them.
unfoldable pub undo : Bool → HexState → HexState
undo hex_fields s = record (if s.is_active then record s { buffer = s.buffer_original } else s) {
  is_active = hex_fields;
}
