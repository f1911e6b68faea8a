-- ===== src/Vi/Tests.antt =====
-- Commands of class vi on a line (src/vi/vi.cpp), and the laws at a few inputs.
use wx_extension.Prelude.{
  ℕ, zero, suc, ◌≤◌, none, some, [], ◌∷◌, ◌++◌, Text, ◌≡◌, refl, true, false, arith, ◌==◌,
  if◌then◌else◌, ◌-◌,
}
use wx_extension.ViMode.Machine.{ModeState}
use wx_extension.Vi.Component.{Scope, Direction, Vi}
use wx_extension.Vi.Count.{stoi, filter_count, set_last_command}
use wx_extension.Vi.Methods.{mode_transition, mode_escape, delete_range}
use wx_extension.Vi.Motions.{repeat, find_char_motion}
use wx_extension.Vi.MotionTable.{find_motion, motion_commands}
use wx_extension.Vi.Others.{find_other, other_commands}
use wx_extension.Vi.OtherActions.{dot_command}
use wx_extension.Vi.Parse.{
  other_command, step_one, step_more, step_command, check_commands, finish_command, prefix_of,
  mapped, parse_mapped, parse_command, command_with, command,
}
use wx_extension.Vi.MotionCommand.{get_motion, run_motion, motion_by_table, motion_command}
use wx_extension.Vi.Laws.Counts.{IsCount}
use wx_extension.Vi.Laws.Delete.{typed_delete, started, command-delete}
use wx_extension.Vi.Laws.DeleteMotion.{ended, counted}
use wx_extension.Vi.Laws.Dot.{begun, dot_command-rounds}
use wx_extension.Vi.Laws.Find.{turned, find_char_motion-repeats}
use wx_extension.Vi.Sample.{Line, sample, on_line}

abbrev letters : Text
letters = b'a' ∷ b'b' ∷ b'c' ∷ b'd' ∷ b'e' ∷ b'f' ∷ b'g' ∷ b'h' ∷ []

abbrev one_x : Text
one_x = b'x' ∷ []

two : IsCount b'2' [] 2
unfolding stoi
two = record { first_digit = refl; first_nonzero = refl; digits = refl; value = refl }

three : IsCount b'3' [] 3
unfolding stoi
three = record { first_digit = refl; first_nonzero = refl; digits = refl; value = refl }

command-delete_example :
    command sample 3 (typed_delete sample (b'2' ∷ []) (b'3' ∷ []) b'w') (on_line letters 1) ≡ (
      let w =
        ended sample Scope.word Direction.right b'w'
          (counted sample (b'3' ∷ []) 3 (started sample (b'2' ∷ []) 2 (on_line letters 1))) in
      let t = typed_delete sample (b'2' ∷ []) (b'3' ∷ []) b'w' in
      some (
        record w {
          last_command = t;
          around = record w.around { recorded = w.around.recorded ++ t ∷ [] };
        },
        true,
      ))
unfolding find_motion motion_commands
command-delete_example =
    command-delete sample 2 Scope.word Direction.right b'2' [] b'3' [] b'w' (on_line letters 1) two
      three (omega arith) refl refl refl refl refl refl refl refl refl refl refl

-- one run of the last command
abbrev again_once : Vi Line → Vi Line
again_once v = elim (command sample 8 v.last_command v) [ none ↦ v | some r ↦ r.0 ]

abbrev after_x : Vi Line
after_x = record (on_line letters 1) { last_command = one_x; count = 7 }

find_char_motion-repeats_example :
    ((find_char_motion sample
        (b';' ∷ [])
        (record (on_line letters 4) { last_find = b'f' ∷ b'g' ∷ [] })).0
      ≡ (find_char_motion sample
          (b'f' ∷ b'g' ∷ [])
          (record (on_line letters 4) { last_find = b'f' ∷ b'g' ∷ [] })).0)
    × ((find_char_motion sample
          (b',' ∷ [])
          (record (on_line letters 4) { last_find = b'f' ∷ b'g' ∷ [] })).0
        ≡ (let w =
              (find_char_motion sample
                (turned b'f' ∷ b'g' ∷ [])
                (record (on_line letters 4) { last_find = b'f' ∷ b'g' ∷ [] })).0 in
            record w { last_find = b'f' ∷ b'g' ∷ [] }))
find_char_motion-repeats_example =
    find_char_motion-repeats sample b'f' b'g'
      (record (on_line letters 4) { last_find = b'f' ∷ b'g' ∷ [] }) refl refl

-- a register with a text, typed in insert mode
abbrev with_register : ℕ → Text → Vi Line
with_register c t =
    let v = on_line letters 2 in
    record v {
      around = record v.around { registers = λ d. if d == c then t else [] };
      fsm = record v.fsm { state = ModeState.insert };
    }

counts_once : (i : ℕ) → i ≤ 0 → (repeat i again_once (again_once (begun sample after_x))).count ≡ 1
unfolding command command_with parse_command parse_mapped prefix_of mapped step_command step_one
    step_more finish_command check_commands motion_command motion_by_table run_motion other_command
    filter_count set_last_command find_motion find_other motion_commands other_commands
    mode_transition mode_escape delete_range get_motion stoi repeat
counts_once zero h = refl
counts_once (suc i) h = absurd (omega arith)

runs_once :
    (i : ℕ)
    → i ≤ 0
    → command sample 8
        (repeat i again_once (begun sample after_x)).last_command
        (repeat i again_once (begun sample after_x))
      ≡ some (again_once (repeat i again_once (begun sample after_x)), true)
unfolding command command_with parse_command parse_mapped prefix_of mapped step_command step_one
    step_more finish_command check_commands motion_command motion_by_table run_motion other_command
    filter_count set_last_command find_motion find_other motion_commands other_commands
    mode_transition mode_escape delete_range get_motion stoi repeat
runs_once zero h = refl
runs_once (suc i) h = absurd (omega arith)

dot_command-rounds_example : dot_command sample 3 (command sample 8) (b'.' ∷ []) after_x ≡ (
    let w = repeat 1 again_once (begun sample after_x) in
    some (record w { dot = false; around = record w.around { undos = w.around.undos - 1 } }, 1))
dot_command-rounds_example =
    dot_command-rounds sample (command sample 8) again_once 0 3 (b'.' ∷ []) after_x counts_once
      runs_once refl (omega arith) (omega arith)
