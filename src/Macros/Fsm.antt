-- ===== src/Macros/Fsm.antt =====
-- Recording and playing back macros (src/vi/macro-fsm.cpp, and macros::record of
-- src/vi/macros.cpp). The editor is a type `E`; what a command does with the machine and the editor
-- is a parameter, and so are the groups of its undo. Messages on the status bar and the recording
-- of the frame are left out.
pub mod Recording
pub mod Playback
use wx_extension.Prelude.{
  ℕ, zero, suc, Bool, true, false, not, ◌&&◌, ◌||◌, List, [], ◌∷◌, ◌++◌, map, Text, if◌then◌else◌,
  put, is_lower, to_lower, ◌==◌, eq_text, space,
}
use wx_extension.Core.Text.{is_empty}
use wx_extension.Macros.Variable.{set_ask_for_input}
use wx_extension.Macros.Store.{
  Xml, Store, commands_or_none, get_macro_commands, find_macro, erase_macro, save_macro,
}

-- The macros, with m_macro, m_playback, and whether m_state is RECORDING.
pub record Machine (D : Type 0) : Type 0 where
  pub store : Store D
  pub macro : Text
  pub is_playback : Bool
  pub is_recording : Bool

-- back() += text, for a list that may be empty
unfoldable pub append_back : Text → List Text → List Text
append_back t [] = t ∷ []
append_back t (x ∷ []) = (x ++ t) ∷ []
append_back t (x ∷ y ∷ v) = x ∷ append_back t (y ∷ v)

-- A blank is recorded as the command that moves right.
unfoldable pub as_command : Text → Text
as_command t = if eq_text t (space ∷ []) then b'l' ∷ [] else t

-- The name of a macro of one letter in lower case.
unfoldable pub lower_name : Text → Text
lower_name (c ∷ []) = to_lower c ∷ []
lower_name n = n

-- Whether the commands that are there are cleared when recording starts.
unfoldable pub is_cleared : Text → Bool
is_cleared (c ∷ []) = is_lower c
is_cleared n = true

module _ {D : Type 0} where
  abbrev pub set_commands : Text → List Text → Store D → Store D
  set_commands n cs s = record s { macros = put n cs s.macros }

  -- macros::record
  unfoldable pub record_text : Text → Bool → Machine D → Machine D × Bool
  unfolding commands_or_none append_back as_command
  record_text t new_command m =
      if not m.is_recording || (m.is_playback || is_empty t)
      then (m, false)
      else if is_empty m.macro
      then (m, false)
      else (
        record m {
          store =
              set_commands m.macro
                (if new_command
                  then commands_or_none m.macro m.store ++ as_command t ∷ []
                  else append_back t (commands_or_none m.macro m.store))
                m.store;
        },
        true,
      )

  -- state(RECORDING)
  unfoldable pub enter_recording : Machine D → Machine D
  unfolding lower_name is_cleared
  enter_recording m = record m {
    is_recording = true;
    store = if is_cleared m.macro then set_commands m.macro [] m.store else m.store;
    macro = lower_name m.macro;
  }

  unfoldable pub recorded : Xml D → Machine D → Machine D
  unfolding find_macro erase_macro save_macro
  recorded xml m = if is_empty m.macro then m else elim (find_macro m.macro m.store) [
    | c ∷ cs ↦ record m { store = save_macro xml m.macro m.store }
    | [] ↦ record m { store = (erase_macro m.macro m.store).0; macro = [] }
  ]

  -- macro_fsm::record, with the reactions of the two states on its event.
  unfoldable pub record_macro : Xml D → Text → Machine D → Machine D
  unfolding enter_recording recorded
  record_macro xml n m =
      let m1 = if is_empty n then m else record m { macro = n } in
      if m.is_recording
      then record (recorded xml m1) { is_recording = false }
      else enter_recording m1

  unfoldable pub ask_again : Store D → Store D
  ask_again s = record s { variables = map (λ e. (e.0, set_ask_for_input true e.1)) s.variables }

-- The undo groups of the editor.
pub record Undo (E : Type 0) : Type 0 where
  pub begin_undo : E → E
  pub end_undo : E → E

-- all_of over the commands, that stops at the first one that fails
unfoldable pub all_of {ℓ} : {W : Type ℓ} → (Text → W → W × Bool) → List Text → W → W × Bool
all_of command [] w = (w, true)
all_of command (c ∷ cs) w =
    let r = command c w in elim r.1 [ true ↦ all_of command cs r.0 | false ↦ (r.0, false) ]

-- The loop of `repeat` times.
unfoldable pub repeated {ℓ} : {W : Type ℓ} → ℕ → (W → W × Bool) → W → W × Bool
repeated zero f w = (w, true)
repeated (suc n) f w = let r = f w in elim r.1 [ true ↦ repeated n f r.0 | false ↦ (r.0, false) ]

module _ {D E : Type 0} where
  -- playback(macro, ex, repeat), for a `repeat` that is not negative, with whether it played back.
  unfoldable pub playback :
      Undo E
      → (Text → Machine D × E → (Machine D × E) × Bool)
      → Text
      → ℕ
      → Machine D × E
      → (Machine D × E) × Bool
  unfolding ask_again all_of repeated get_macro_commands
  playback undo command n repeat (m, e) =
      if repeat == 0 || ((m.is_playback || m.is_recording) && eq_text n m.macro)
      then ((m, e), false)
      else (let r = repeated repeat (all_of command (get_macro_commands n m.store)) (
        record m {
          store = ask_again m.store;
          is_playback = true;
          macro = if m.is_recording then m.macro else n;
        },
        undo.begin_undo e,
      ) in
          ((record r.0.0 { is_playback = false }, undo.end_undo r.0.1), r.1))
