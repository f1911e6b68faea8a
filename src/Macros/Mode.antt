-- ===== src/Macros/Mode.antt =====
-- The command that records or plays back a macro (src/vi/macro-mode.cpp: transition), given to an
-- ex component. The dialogs, the two regular expressions, boost's trim_copy and std::sort, and what
-- a command, a variable and restoring the command do, are parameters. The panes of the status bar
-- are left out.
pub mod Laws
use wx_extension.Prelude.{
  ℕ, Bool, not, ◌&&◌, ◌||◌, Option, none, some, List, [], ◌∷◌, Text, if◌then◌else◌, ◌==◌, length,
}
use wx_extension.Core.Text.{is_empty, auto_complete_text}
use wx_extension.Macros.Store.{Xml, get_names, is_recorded, is_recorded_macro, starts_with}
use wx_extension.Macros.Fsm.{Machine, Undo, record_macro, playback}

-- entry_dialog: the name that is entered, `none` if cancelled. show_dialog: the macro that is
-- chosen from a list that is not empty. register_of: regafter("@", text), and then the last char.
-- variable_of: the text between the two '@' of a match.
pub record Surroundings (D E : Type 0) : Type 0 where
  pub trim_copy : Text → Text
  pub sort : List Text → List Text
  pub entry_dialog : Text → Option Text
  pub choice_dialog : List Text → Text → Option Text
  pub register_of : Text → Option Text
  pub variable_of : Text → Option Text
  pub undo : Undo E
  pub command : Text → Machine D × E → (Machine D × E) × Bool
  pub expand_variable : Text → Machine D × E → Machine D × E
  pub restore : Machine D × E → Machine D × E

-- What the tests on a command come to: a result at once, or the macro to record or play back.
pub data Choice : Type 0 where
  answer : ℕ → Choice
  chosen : Text → Choice

abbrev pub or_answer : Option Text → ℕ → Choice
or_answer none k = answer k
or_answer (some n) k = chosen n

module _ {D E : Type 0} where
  abbrev pub show_dialog : Surroundings D E → Machine D → Option Text
  show_dialog w m = elim (get_names w.sort m.store) [
    | [] ↦ none
    | n ∷ ns ↦ w.choice_dialog (n ∷ ns) m.macro
  ]

  -- a command that starts with 'q', without that char
  unfoldable pub choose_record : Surroundings D E → Text → Bool → Machine D → Choice
  choose_record w n complete m =
      if complete
      then (if is_empty n
          then elim (w.entry_dialog m.macro) [
            | none ↦ answer 0
            | some t ↦ if is_empty t then answer 0 else chosen t
          ]
          else chosen n)
      else if not m.is_recording && is_empty n
      then answer 0
      else chosen n

  -- a command that starts with '@', without that char
  unfoldable pub choose_playback : Surroundings D E → Text → Bool → Machine D → Choice
  choose_playback w [] complete m = if complete then or_answer (show_dialog w m) 1 else answer 0
  choose_playback w (c ∷ n) complete m =
      if c == b'@' && is_empty n
      then (if is_empty m.macro then or_answer (show_dialog w m) 2 else chosen m.macro)
      else elim (w.register_of (b'@' ∷ c ∷ n)) [
        | some r ↦ if is_recorded r m.store then chosen r else answer 2
        | none ↦ elim (w.variable_of (b'@' ∷ c ∷ n)) [
          | some v ↦ chosen v
          | none ↦
              if starts_with (c ∷ n) m.store
              then (let r = auto_complete_text (c ∷ n) (get_names w.sort m.store) [] in
                  if r.0 then chosen r.1 else answer 0)
              else answer (length (b'@' ∷ c ∷ n))
        ]
      ]

  -- transition(command, ex, complete, repeat), for a `repeat` that is not negative
  unfoldable pub transition_macro :
      Surroundings D E → Xml D → Text → Bool → ℕ → Machine D × E → ℕ × (Machine D × E)
  unfolding choose_record choose_playback
  transition_macro w xml command complete repeat (m, e) =
      if is_empty command || repeat == 0 then (0, (m, e)) else elim (w.trim_copy command) [
        | [] ↦ (0, (m, e))
        | c ∷ n ↦
            if c == b'q'
            then elim (choose_record w n complete m) [
              | answer k ↦ (k, (m, e))
              | chosen t ↦ (length command, w.restore (record_macro xml t m, e))
            ]
            else if c == b'@'
            then elim (choose_playback w n complete m) [
              | answer k ↦ (k, (m, e))
              | chosen t ↦ (
                length command,
                w.restore (
                    if is_recorded_macro t m.store
                    then (playback w.undo w.command t repeat (m, e)).0
                    else w.expand_variable t (m, e)),
              )
            ]
            else (0, (m, e))
      ]
