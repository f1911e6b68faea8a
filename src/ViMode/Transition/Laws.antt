-- ===== src/ViMode/Transition/Laws.antt =====
-- The modes of vi as a flat machine (src/vi/mode.cpp).
use wx_extension.Prelude.{Bool, List, [], ◌∷◌, Text, ◌≡◌, arith, if◌then◌else◌}
use wx_extension.ViMode.Machine.{Event, Inner, ModeState, Fsm, process}
use wx_extension.ViMode.Transition.{Component, transition}

-- The state that every innermost state sets.
abbrev pub state_of : Inner → ModeState
state_of Inner.command = ModeState.command
state_of Inner.textinput = ModeState.insert
state_of Inner.visual = ModeState.visual
state_of Inner.visual_line = ModeState.visual_line
state_of Inner.visual_block = ModeState.visual_block
state_of Inner.visual_block_textinput = ModeState.insert_block

abbrev pub IsSynced : Fsm → Type 0
IsSynced f = f.state ≡ state_of f.inner

-- The modes as one flat table.
abbrev pub next : Bool → ModeState → Event → ModeState
next readonly ModeState.insert Event.escape = ModeState.command
next readonly ModeState.insert _ = ModeState.insert
next readonly ModeState.insert_block Event.escape = ModeState.visual_block
next readonly ModeState.insert_block Event.insert = ModeState.insert_block
next readonly ModeState.command Event.insert =
    if readonly then ModeState.command else ModeState.insert
next readonly ModeState.visual_block Event.insert = ModeState.insert_block
next readonly m Event.insert = m
next readonly m Event.escape = ModeState.command
next readonly m Event.visual = ModeState.visual
next readonly m Event.visual_line = ModeState.visual_line
next readonly m Event.visual_block = ModeState.visual_block

-- The nested machine is the flat table: where the state is that of the innermost one, every event
-- leads to the state that the table gives, which again is that of the innermost one.
pub process-next :
    (readonly : Bool) (text : Text) (e : Event) (f : Fsm)
    → IsSynced f
    → ((process readonly text e f).0.state ≡ next readonly f.state e)
      × IsSynced (process readonly text e f).0
unfolding process
process-next readonly text e f h = ground arith

pub transition-IsSynced :
    (v : Component) (t : Text) (f : Fsm) → IsSynced f → IsSynced (transition v t f).fsm
unfolding transition
transition-IsSynced v [] f h = h
transition-IsSynced v (c ∷ rest) f h =
    ground (arith, λ (e : Event). (process-next v.readonly (c ∷ rest) e f h).1)

-- The machine after a sequence of commands, each with what the component answers then.
abbrev pub run : Fsm → List (Component × Text) → Fsm
run f [] = f
run f ((v, t) ∷ rest) = run (transition v t f).fsm rest
