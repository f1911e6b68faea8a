-- ===== src/Vi/Methods.antt =====
-- The methods of class vi that the commands share (src/vi/vi.cpp).
use wx_extension.Prelude.{
  ℕ, zero, suc, Bool, true, false, not, ◌&&◌, ◌||◌, List, [], ◌∷◌, ◌++◌, Text, if◌then◌else◌, ◌==◌,
  ltb, ℤ, pos, negsuc, ltb_ℤ, eqb_ℤ, ◌+ℤ◌, ◌-ℤ◌, pos_part,
}
use wx_extension.Core.Text.{is_empty, get_number_of_lines}
use wx_extension.ViMode.Machine.{
  Effect, ModeState, call_insert, call_command, append_insert_command,
}
use wx_extension.ViMode.Transition as Mode
use wx_extension.Vi.Component.{Scope, Direction, Extent, Stc, Vi, on_stc}
use wx_extension.Vi.Count.{escape_key, set_last_command, append_command}

module _ {E : Type 0} (x : Stc E) where
  -- append_insert_text, which sets the register of inserted text
  unfoldable pub append_text : Text → Vi E → Vi E
  append_text t v = record v {
    insert_text = v.insert_text ++ t;
    around = x.set_register b'.' (v.insert_text ++ t) v.around;
  }

  -- What a transition of the mode calls: the callbacks of the constructor, and the component.
  unfoldable pub apply_effect : Effect → Vi E → Vi E
  unfolding set_last_command append_command
  apply_effect (call_insert t) v =
      on_stc x.begin_undo (if v.dot then v else record v { insert_text = [] })
  apply_effect call_command v =
      let c = v.insert_command ++ x.get_register b'.' v.around in
      let w =
        if v.dot
        then v
        else on_stc (λ e. x.record_macro (escape_key ∷ []) true (x.record_macro c false e))
            (set_last_command (c ++ escape_key ∷ []) v) in
      record w { typed = []; insert_command = []; around = x.end_undo w.around }
  apply_effect (append_insert_command t) v = append_command t v
  apply_effect other v = on_stc (x.effect other) v

  unfoldable pub apply_effects : List Effect → Vi E → Vi E
  unfolding apply_effect
  apply_effects [] v = v
  apply_effects (f ∷ fs) v = apply_effects fs (apply_effect f v)

  -- m_mode.transition(command), and the command behind it
  unfoldable pub mode_transition : Text → Vi E → (Vi E × Text) × Bool
  unfolding apply_effects Mode.transition
  mode_transition t v =
      let r = Mode.transition (x.mode v.around) t v.fsm in
      ((apply_effects r.effects (record v { fsm = r.fsm }), r.command), r.ok)

  unfoldable pub mode_escape : Vi E → Vi E × Bool
  unfolding mode_transition
  mode_escape v = let r = mode_transition (escape_key ∷ []) v in (r.0.0, r.1)

  abbrev pub register_text : Vi E → Text
  register_text v = x.get_register (if v.register == 0 then b'0' else v.register) v.around

  unfoldable pub delete_range : ℤ → ℤ → Vi E → Vi E × Bool
  delete_range start stop v =
      if x.is_readonly v.around
      then (v, false)
      else (let first = (if ltb_ℤ start stop then start else stop) in
          let last = (if ltb_ℤ start stop then stop else start) in
          let e = v.around in
          (
            record v {
              around =
                  if not (x.is_hexmode e)
                  then x.delete_text first (last -ℤ first) (
                      x.set_register (if v.register == 0 then b'0' else v.register)
                        (x.text_range first last e) e)
                  else x.hexmode_erase (last -ℤ first) first e;
            },
            true,
          ))

  unfoldable pub put : Bool → Vi E → Vi E × Bool
  put is_after v =
      if is_empty (register_text v)
      then (v, false)
      else (let lines = ltb 1 (get_number_of_lines x.trim (register_text v) false) in
          let e = v.around in
          let down =
            if lines && is_after && (ltb 0 (x.column e) || is_empty (x.selected_text e))
            then x.move Scope.line Direction.down Extent.plain e
            else e in
          let home = if lines then x.effect Effect.home down else down in
          let added = x.add_text (register_text v) home in
          (
            record v {
              around =
                  if lines && is_after
                  then x.move Scope.line Direction.up Extent.plain added
                  else added;
            },
            true,
          ))

  -- The loops of a rectangle: a step goes one position at least, so the distance is enough fuel.
  unfoldable pub rect_to : ℕ → Direction → (E → Bool) → E → E
  rect_to zero d more e = e
  rect_to (suc n) d more e =
      let rest = rect_to n d more (x.move Scope.char d Extent.rect_extend e) in
      if more e then rest else e

  unfoldable pub visual_extend : ℤ → ℤ → Vi E → Vi E
  unfolding rect_to
  visual_extend start stop v =
      if eqb_ℤ start (negsuc 0) || eqb_ℤ stop (negsuc 0)
      then v
      else on_stc
          (λ e. elim v.fsm.state [
            | ModeState.visual ↦ x.set_selection start stop e
            | ModeState.visual_line ↦
                let first = (if ltb_ℤ start stop then start else stop) in
                let last = (if ltb_ℤ start stop then stop else start) in
                x.set_selection (x.position_from_line (x.line_from_position first e) e)
                  (x.position_from_line (x.line_from_position last e +ℤ pos 1) e) e
            | ModeState.visual_block ↦
                if ltb_ℤ start stop
                then rect_to (pos_part (stop -ℤ pos (x.current_pos e))) Direction.right
                    (λ d. ltb_ℤ (pos (x.current_pos d)) stop) e
                else rect_to (pos_part (pos (x.current_pos e) -ℤ start)) Direction.left
                    (λ d. ltb_ℤ start (pos (x.current_pos d))) e
            | _ ↦ e
          ])
          v
