-- ===== src/ViMode/Transition/Reach.antt =====
-- The modes that sequences of commands of vi_mode::transition lead to (src/vi/mode.cpp).
use wx_extension.Prelude.{
  ℕ, true, false, List, [], ◌∷◌, Text, ◌≡◌, ◌≢◌, ◌⊎◌, refl, arith, inl, take,
}
use wx_extension.ViMode.Machine.{Inner, ModeState, Fsm, initial, process, call_insert}
use wx_extension.ViMode.Transition.{Component, transition, escape, is_insert, is_command, is_visual}
use wx_extension.ViMode.Transition.Laws.{IsSynced, transition-IsSynced, run}

run-IsSynced : (f : Fsm) (steps : List (Component × Text)) → IsSynced f → IsSynced (run f steps)
run-IsSynced f [] h = h
run-IsSynced f ((v, t) ∷ rest) h =
    run-IsSynced (transition v t f).fsm rest (transition-IsSynced v t f h)

escape_twice :
    (v w : Component) (f : Fsm)
    → IsSynced f
    → let g = (escape w (escape v f).fsm).fsm in
      (g.inner ≡ Inner.command)
      × (is_command g ≡ true)
      × (is_insert g ≡ false)
      × (is_visual g ≡ false)
unfolding escape transition process
escape_twice v w f h = ground arith

-- However commands and answers of the component follow each other from the start, two escapes end
-- in the command mode: the innermost state is COMMAND, is_command holds, and neither is_insert nor
-- is_visual does.
pub run-escape :
    (steps : List (Component × Text)) (v w : Component)
    → let f = (escape w (escape v (run initial steps)).fsm).fsm in
      (f.inner ≡ Inner.command)
      × (is_command f ≡ true)
      × (is_insert f ≡ false)
      × (is_visual f ≡ false)
run-escape steps v w = escape_twice v w (run initial steps) (run-IsSynced initial steps refl)

-- What a transition does with the command: either it is refused, and then the machine and the
-- command are unchanged and there is no effect, or the command has lost its first char, and
-- nothing but it.
pub transition-command :
    (v : Component) (t : Text) (f : Fsm)
    → (((transition v t f).ok ≡ false)
        × ((transition v t f).fsm ≡ f)
        × ((transition v t f).command ≡ t)
        × ((transition v t f).effects ≡ []))
      ⊎ (((transition v t f).ok ≡ true) × ((c : ℕ) × (t ≡ c ∷ (transition v t f).command)))
unfolding transition
transition-command v [] f = inl (refl, refl, refl, refl)
transition-command v (c ∷ rest) f = ground arith

-- The component may not be edited.
abbrev IsReadonly : List (Component × Text) → Type 0
IsReadonly [] = Unit
IsReadonly ((v, t) ∷ rest) = (v.readonly ≡ true) × IsReadonly rest

not_insert :
    (v : Component) (t : Text) (f : Fsm)
    → IsSynced f
    → v.readonly ≡ true
    → f.state ≢ ModeState.insert
    → (transition v t f).fsm.state ≢ ModeState.insert
unfolding transition process
not_insert v [] f h r n = n
not_insert v (c ∷ rest) f h r n = ground arith

from-readonly :
    (f : Fsm) (steps : List (Component × Text))
    → IsSynced f
    → IsReadonly steps
    → f.state ≢ ModeState.insert
    → (run f steps).state ≢ ModeState.insert
from-readonly f [] h r n = n
from-readonly f ((v, t) ∷ rest) h r n =
    from-readonly (transition v t f).fsm rest (transition-IsSynced v t f h) r.1
      (not_insert v t f h r.0 n)

-- Where the component may not be edited at any step, no sequence of commands from the start
-- leads to the state insert.
pub run-readonly :
    (steps : List (Component × Text))
    → IsReadonly steps
    → (run initial steps).state ≢ ModeState.insert
run-readonly steps r = from-readonly initial steps refl r (ground arith)

-- The state insert_block is not kept from: from the command mode, the commands K and i lead to
-- it whether the component may be edited or not, and the callback for the insert mode is called.
pub transition-insert_block :
    (v w : Component) (f : Fsm)
    → f.inner ≡ Inner.command
    → let g = (transition v (b'K' ∷ []) f).fsm in
      let r = transition w (b'i' ∷ []) g in
      (r.fsm.state ≡ ModeState.insert_block) × (take 1 r.effects ≡ call_insert (b'i' ∷ []) ∷ [])
unfolding transition process
transition-insert_block v w f h = ground arith
