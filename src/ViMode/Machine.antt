-- ===== src/ViMode/Machine.antt =====
-- The state machine (src/vi/mode.cpp: vi_fsm and its states). A state is the innermost one; all
-- visual states stand in VISUAL_MODE, and that, COMMAND and TEXTINPUT in ACTIVE. An event that the
-- innermost state does not react to goes to the state around it; ACTIVE reacts to none.
use wx_extension.Prelude.{ℕ, Bool, true, false, List, [], ◌∷◌, ◌++◌, Text, if◌then◌else◌}

pub data Event : Type 0 where
  escape insert visual visual_line visual_block : Event

pub data Inner : Type 0 where
  command textinput visual visual_line visual_block visual_block_textinput : Inner

-- vi_mode::state_t
pub data ModeState : Type 0 where
  command insert insert_block visual visual_line visual_block : ModeState

-- What is called outside: the two callbacks, methods of the component, of vi, and of the frame.
pub data Effect : Type 0 where
  call_insert : Text → Effect
  call_command : Effect
  char_right line_end new_line line_end_extend cut line_home line_up set_overtype : Effect
  home line_down_extend home_extend : Effect
  set_selection : ℕ → ℕ → Effect
  append_insert_command : Text → Effect
  pane_show : Bool → Effect
  status_text : Effect

pub record Fsm : Type 0 where
  pub inner : Inner
  pub state : ModeState
  pub command : Text

abbrev pub initial : Fsm
initial = record { inner = Inner.command; state = ModeState.command; command = [] }

-- The constructor of a state: it sets m_state, and the two text states call insert_mode.
unfoldable pub enter : Inner → Fsm → Fsm × List Effect
enter Inner.command f = (record f { inner = Inner.command; state = ModeState.command }, [])
enter Inner.textinput f =
    (record f { inner = Inner.textinput; state = ModeState.insert }, call_insert f.command ∷ [])
enter Inner.visual f = (record f { inner = Inner.visual; state = ModeState.visual }, [])
enter Inner.visual_line f =
    (record f { inner = Inner.visual_line; state = ModeState.visual_line }, [])
enter Inner.visual_block f =
    (record f { inner = Inner.visual_block; state = ModeState.visual_block }, [])
enter Inner.visual_block_textinput f = (
  record f { inner = Inner.visual_block_textinput; state = ModeState.insert_block },
  call_insert f.command ∷ [],
)

-- A reaction: the effects before the transition and its target, or the event goes on.
pub data Reaction : Type 0 where
  transit : List Effect → Inner → Reaction
  forward : Reaction

-- The reactions of the innermost states.
unfoldable pub react_inner : Bool → Inner → Event → Reaction
react_inner readonly Inner.command e = elim e [
  | escape ↦ transit [] Inner.command
  | insert ↦ if readonly then forward else transit [] Inner.textinput
  | visual ↦ transit [] Inner.visual
  | visual_line ↦ transit [] Inner.visual_line
  | visual_block ↦ transit [] Inner.visual_block
]
react_inner readonly Inner.textinput e = elim e [
  | escape ↦ transit (call_command ∷ []) Inner.command
  | _ ↦ forward
]
react_inner readonly Inner.visual_block e = elim e [
  | insert ↦ transit [] Inner.visual_block_textinput
  | _ ↦ forward
]
react_inner readonly Inner.visual_block_textinput e = elim e [
  | escape ↦ transit [] Inner.visual_block
  | _ ↦ forward
]
react_inner readonly _ e = forward

-- The reactions of VISUAL_MODE, whose initial state is VISUAL.
unfoldable pub react_visual_mode : Event → Reaction
react_visual_mode escape = transit [] Inner.command
react_visual_mode insert = forward
react_visual_mode visual = transit [] Inner.visual
react_visual_mode visual_line = transit [] Inner.visual_line
react_visual_mode visual_block = transit [] Inner.visual_block

abbrev pub in_visual_mode : Inner → Bool
in_visual_mode Inner.command = false
in_visual_mode Inner.textinput = false
in_visual_mode _ = true

-- The event goes outwards; what nobody reacts to is discarded.
unfoldable pub react : Bool → Inner → Event → Reaction
unfolding react_inner react_visual_mode
react readonly i e = elim (react_inner readonly i e) [
  | transit effects target ↦ transit effects target
  | forward ↦ if in_visual_mode i then react_visual_mode e else forward
]

unfoldable pub process_event : Bool → Event → Fsm → Fsm × List Effect
unfolding react enter
process_event readonly e f = elim (react readonly f.inner e) [
  | forward ↦ (f, [])
  | transit effects target ↦ let r = enter target f in (r.0, effects ++ r.1)
]

-- process(command, event)
unfoldable pub process : Bool → Text → Event → Fsm → Fsm × List Effect
unfolding process_event
process readonly text e f = process_event readonly e (record f { command = text })
