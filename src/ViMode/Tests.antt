-- ===== src/ViMode/Tests.antt =====
-- The modes of vi on a component that may be edited, and on one that may not (src/vi/mode.cpp).
use wx_extension.Prelude.{true, false, [], ◌∷◌, ◌≡◌, ◌≢◌, refl, take}
use wx_extension.ViMode.Machine.{Event, Inner, ModeState, initial, process, call_insert}
use wx_extension.ViMode.Transition.{Component, transition, escape, is_insert, is_command, is_visual}
use wx_extension.ViMode.Transition.Laws.{IsSynced, process-next, run}
use wx_extension.ViMode.Transition.Reach.{run-escape, run-readonly, transition-insert_block}

abbrev editable : Component
editable = record {
  readonly = false;
  is_hexmode = false;
  selection_is_rectangle = false;
  selected_text_empty = true;
  selection_start = 0;
  selection_end = 0;
  line_from_position = λ p. p;
  position_from_line = λ n. n;
  is_recording = false;
  show_mode = true;
}

abbrev protected : Component
protected = record editable { readonly = true }

process-next_example :
    ((process false (b'i' ∷ []) Event.insert initial).0.state ≡ ModeState.insert)
    × IsSynced (process false (b'i' ∷ []) Event.insert initial).0
process-next_example = process-next false (b'i' ∷ []) Event.insert initial refl

run-escape_example :
    let f =
      (escape editable
        (escape editable
          (run initial ((editable, b'K' ∷ []) ∷ (editable, b'i' ∷ []) ∷ []))).fsm).fsm in
    (f.inner ≡ Inner.command)
    × (is_command f ≡ true)
    × (is_insert f ≡ false)
    × (is_visual f ≡ false)
run-escape_example =
    run-escape ((editable, b'K' ∷ []) ∷ (editable, b'i' ∷ []) ∷ []) editable editable

run-readonly_example :
    (run initial ((protected, b'i' ∷ []) ∷ (protected, b'v' ∷ []) ∷ [])).state ≢ ModeState.insert
run-readonly_example =
    run-readonly ((protected, b'i' ∷ []) ∷ (protected, b'v' ∷ []) ∷ []) (refl, (refl, tt))

transition-insert_block_example :
    let g = (transition protected (b'K' ∷ []) initial).fsm in
    let r = transition protected (b'i' ∷ []) g in
    (r.fsm.state ≡ ModeState.insert_block) × (take 1 r.effects ≡ call_insert (b'i' ∷ []) ∷ [])
transition-insert_block_example = transition-insert_block protected protected initial refl
