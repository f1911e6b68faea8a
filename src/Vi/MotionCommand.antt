-- ===== src/Vi/MotionCommand.antt =====
-- A motion behind c, d or y, or on its own (src/vi/vi.cpp: get_motion, motion_command).
use wx_extension.Prelude.{
  ℕ, Bool, true, false, not, ◌||◌, Option, none, some, [], ◌∷◌, Text, length, take, drop,
  if◌then◌else◌, ◌==◌, ltb, pos, ◌-ℤ◌,
}
use wx_extension.Core.Text.{is_empty}
use wx_extension.ViMode.Transition as Mode
use wx_extension.Vi.Component.{Stc, Vi, on_stc}
use wx_extension.Vi.Count.{append_command, filter_count}
use wx_extension.Vi.Methods.{mode_escape, mode_transition, delete_range}
use wx_extension.Vi.Motions.{first_or}
use wx_extension.Vi.MotionTable.{Handler, find_motion, motion_commands}

-- motion_t
pub data Motion : Type 0 where
  change delete navigate yank : Motion

unfoldable pub get_motion : ℕ → Motion
get_motion c =
    if c == b'c'
    then Motion.change
    else if c == b'd'
    then Motion.delete
    else if c == b'y'
    then Motion.yank
    else Motion.navigate

module _ {E : Type 0} (x : Stc E) where
  -- The state, the command that is left, and the result.
  abbrev pub Outcome : Type 0
  Outcome = (Vi E × Text) × Bool

  -- What stands behind the switch on the motion.
  unfoldable pub after_motion : Text → ℕ → Vi E → Outcome
  unfolding append_command
  after_motion t parsed v = (
    (
      record (if is_empty v.insert_command then v else append_command (take parsed t) v) {
        count = 1;
        count_present = false;
      },
      drop parsed t,
    ),
    true,
  )

  -- the end of a yank, after the motion from `start`
  unfoldable pub yank_from : ℕ → Vi E → Vi E
  unfolding mode_escape
  yank_from start v =
      let p = x.current_pos v.around in
      let last =
        (if not (is_empty (x.selected_text v.around))
          then pos (x.selection_start v.around)
          else pos p -ℤ pos 1) in
      let w =
        on_stc
          (λ e.
            if ltb start p
            then x.set_selection (pos start) (pos p)
                (x.copy_range (pos start) (pos p -ℤ pos start) e)
            else x.set_selection last (pos start) (x.copy_range last (pos start -ℤ last) e))
          v in
      let u = (mode_escape x w).0 in
      on_stc
        (λ e.
          if u.register == 0
          then x.set_register b'0' (x.selected_text e) e
          else x.select_none (x.set_register u.register (x.selected_text e) e))
        u

  unfoldable pub run_motion : Motion → Handler E → Text → Vi E → Outcome
  unfolding after_motion yank_from mode_escape mode_transition
  run_motion m h t v = elim m [
    | Motion.change ↦
        let selected = not (is_empty (x.selected_text v.around)) in
        let w =
          (if selected then on_stc (λ e. x.set_current_pos (x.selection_start e) e) v else v) in
        let start = x.current_pos w.around in
        let r = h t w in
        if r.1 == 0
        then (((mode_escape x r.0).0, t), false)
        else after_motion t r.1 (delete_range x (pos start) (pos (x.current_pos r.0.around)) r.0).0
    | Motion.delete ↦
        let r = h t v in
        if x.is_readonly v.around
        then ((v, []), true)
        else if r.1 == 0
        then ((r.0, t), false)
        else after_motion t r.1
            (delete_range x (pos (x.current_pos v.around)) (pos (x.current_pos r.0.around)) r.0).0
    | Motion.navigate ↦
        let r = h t v in if r.1 == 0 then ((r.0, t), false) else after_motion t r.1 r.0
    | Motion.yank ↦
        let w = (if Mode.is_visual v.fsm then v else (mode_transition x (b'v' ∷ []) v).0.0) in
        let r = h t w in
        if r.1 == 0
        then ((r.0, t), false)
        else after_motion t r.1 (yank_from (x.current_pos v.around) r.0)
  ]

  -- a motion on the selection: to yank it, or to erase it
  abbrev lines_of : Motion → Option (ℕ → E → E × Bool)
  lines_of m = elim m [
    | Motion.yank ↦ some x.yank_lines
    | Motion.navigate ↦ none
    | _ ↦ some x.erase_lines
  ]

  unfoldable pub motion_by_table : Motion → Text → Vi E → Option Outcome
  motion_by_table m t v = if is_empty t then some ((v, t), false) else elim (filter_count t v) [
    | none ↦ none
    | some r ↦ elim (find_motion (first_or r.1 0) (motion_commands x)) [
      | none ↦ some (r, false)
      | some h ↦ some (run_motion m h r.1 r.0)
    ]
  ]

  unfoldable pub motion_command : Motion → Text → Vi E → Option Outcome
  motion_command m t v =
      if is_empty (x.selected_text v.around) || ltb 1 (length t)
      then motion_by_table m t v
      else elim (lines_of m) [
        | none ↦ motion_by_table m t v
        | some f ↦ (let r = f v.count v.around in some ((record v { around = r.0 }, t), r.1))
      ]
