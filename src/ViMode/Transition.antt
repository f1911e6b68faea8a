-- ===== src/ViMode/Transition.antt =====
-- vi_mode::transition and the queries of class vi_mode (src/vi/mode.cpp). What the component, the
-- macros and the configuration answer while a transition runs is one record; the callbacks do not
-- change these answers. WXK_CONTROL_V and WXK_ESCAPE are 22 and 27.
pub mod Laws
pub mod Reach
use wx_extension.Prelude.{
  ℕ, ◌+◌, Bool, true, false, not, ◌&&◌, ◌||◌, Option, none, some, List, [], ◌∷◌, ◌++◌, Text, ◌==◌,
  if◌then◌else◌,
}
use wx_extension.ViMode.Machine.{
  Event, ModeState, Effect, Fsm, char_right, line_end, new_line, line_end_extend, cut, line_home,
  line_up, set_overtype, home, line_down_extend, home_extend, set_selection, append_insert_command,
  pane_show, status_text, process,
}

pub record Component : Type 0 where
  pub readonly : Bool
  pub is_hexmode : Bool
  pub selection_is_rectangle : Bool
  pub selected_text_empty : Bool
  pub selection_start : ℕ
  pub selection_end : ℕ
  pub line_from_position : ℕ → ℕ
  pub position_from_line : ℕ → ℕ
  pub is_recording : Bool
  pub show_mode : Bool

-- m_insert_commands: what a command does before its text is typed.
unfoldable pub insert_command : ℕ → Option (List Effect)
insert_command c =
    if c == b'a'
    then some (char_right ∷ [])
    else if c == b'c'
    then some []
    else if c == b'i'
    then some []
    else if c == b'o'
    then some (line_end ∷ new_line ∷ [])
    else if c == b'A'
    then some (line_end ∷ [])
    else if c == b'C'
    then some (line_end_extend ∷ cut ∷ [])
    else if c == b'I'
    then some (line_home ∷ [])
    else if c == b'O'
    then some (line_home ∷ new_line ∷ line_up ∷ [])
    else if c == b'R'
    then some (set_overtype ∷ [])
    else none

-- The event of a first char.
unfoldable pub event_of : ℕ → Option Event
unfolding insert_command
event_of c = elim (insert_command c) [
  | some _ ↦ some Event.insert
  | none ↦
      if c == b'K' || c == 22
      then some Event.visual_block
      else if c == b'v'
      then some Event.visual
      else if c == b'V'
      then some Event.visual_line
      else if c == 27
      then some Event.escape
      else none
]

-- A c command waits for its second char, and for a third after f or F.
abbrev pub is_incomplete : Text → Bool
is_incomplete [] = true
is_incomplete (c ∷ []) = c == b'c'
is_incomplete (c ∷ d ∷ []) = c == b'c' && (d == b'f' || d == b'F')
is_incomplete (c ∷ d ∷ e ∷ rest) = false

-- The selection is made to cover whole lines.
unfoldable pub select_lines : Component → List Effect
select_lines v =
    if v.selection_is_rectangle || v.selected_text_empty
    then home ∷ line_down_extend ∷ []
    else set_selection (v.position_from_line (v.line_from_position v.selection_start))
        (v.position_from_line (v.line_from_position v.selection_end + 1))
      ∷ home_extend
      ∷ []

-- The switch on the new state.
unfoldable pub mode_effects : Component → ModeState → ℕ → List Effect
unfolding insert_command select_lines
mode_effects v m c = elim m [
  | ModeState.insert ↦
      if not v.is_hexmode
      then (elim (insert_command c) [
        | some effects ↦ effects ++ append_insert_command (c ∷ []) ∷ []
        | none ↦ []
      ])
      else []
  | ModeState.visual_line ↦ select_lines v
  | _ ↦ []
]

abbrev pub is_command : Fsm → Bool
is_command f = elim f.state [ ModeState.command ↦ true | _ ↦ false ]

abbrev pub is_insert : Fsm → Bool
is_insert f = elim f.state [ ModeState.insert ↦ true | ModeState.insert_block ↦ true | _ ↦ false ]

abbrev pub is_visual : Fsm → Bool
is_visual f = elim f.state [
  | ModeState.visual ↦ true
  | ModeState.visual_line ↦ true
  | ModeState.visual_block ↦ true
  | _ ↦ false
]

-- transition(command): the result, the machine, what is left of the command, and the effects.
abbrev pub Transition : Type 0
Transition = record { ok : Bool; fsm : Fsm; command : Text; effects : List Effect }

abbrev pub refused : Fsm → Text → Transition
refused f t = record { ok = false; fsm = f; command = t; effects = [] }

abbrev pub pane_effects : Component → Fsm → List Effect
pane_effects v f =
    pane_show ((not (is_command f) || v.is_recording) && v.show_mode) ∷ status_text ∷ []

unfoldable pub transition : Component → Text → Fsm → Transition
unfolding event_of mode_effects process
transition v [] f = refused f []
transition v (c ∷ rest) f =
    if is_incomplete (c ∷ rest) then refused f (c ∷ rest) else (elim (event_of c) [
      | none ↦ refused f (c ∷ rest)
      | some e ↦
          let r = process v.readonly (c ∷ rest) e f in
          record {
            ok = true;
            fsm = r.0;
            command = rest;
            effects = r.1 ++ (mode_effects v r.0.state c ++ pane_effects v r.0);
          }
    ])

unfoldable pub escape : Component → Fsm → Transition
unfolding transition
escape v f = transition v (27 ∷ []) f
