-- ===== src/Vi/Laws/DeleteMotion.antt =====
-- A counted motion behind a d (src/vi/vi.cpp: motion_command, delete_range).
use wx_extension.Prelude.{
  ℕ, ◌*◌, ◌<◌, ap, true, false, some, [], ◌∷◌, ◌++◌, Text, ◌≡◌, refl, arith, ℤ, pos,
}
use wx_extension.Prelude.{◌∙◌}
use wx_extension.Core.Text.{is_empty}
use wx_extension.ViMode.Machine.{ModeState}
use wx_extension.Vi.Component.{Scope, Direction, Extent, Stc, Vi}
use wx_extension.Vi.Methods.{delete_range}
use wx_extension.Vi.Count.{append_command, filter_count}
use wx_extension.Vi.Motions.{first_or, repeat, motion, motion_step}
use wx_extension.Vi.MotionTable.{Handler, find_motion, motion_commands}
use wx_extension.Vi.MotionCommand.{
  Motion, run_motion, after_motion, motion_by_table, motion_command,
}
use wx_extension.Vi.Laws.Counts.{IsCount, is_after_count, is_one_line, filter_count-append}

is_empty-append : (t : Text) (c : ℕ) (u : Text) → is_empty (t ++ c ∷ u) ≡ false
is_empty-append [] c u = refl
is_empty-append (d ∷ t) c u = refl

module _ {E : Type 0} (x : Stc E) where
  -- The component after the motion, and after the range behind it is deleted.
  abbrev pub moved : Scope → Direction → ℕ → Vi E → Vi E
  moved s d k v = record v { around = repeat k (x.move s d Extent.plain) v.around }

  abbrev pub deleted : Scope → Direction → ℕ → Vi E → E
  deleted s d k v =
      let w = moved s d k v in
      (delete_range x (pos (x.current_pos v.around)) (pos (x.current_pos w.around)) w).0.around

  delete_range-around :
      (a b : ℤ) (v : Vi E)
      → (delete_range x a b v).0 ≡ record v { around = (delete_range x a b v).0.around }
  unfolding delete_range
  delete_range-around a b v = ground arith

  motion_step-plain :
      (s : Scope) (d : Direction) (m : ModeState)
      → m ≡ ModeState.command
      → motion_step x s d false m ≡ x.move s d Extent.plain
  unfolding motion_step
  motion_step-plain s d m h = rw h refl

  motion-command_mode :
      (s : Scope) (d : Direction) (t : Text) (v : Vi E)
      → v.fsm.state ≡ ModeState.command
      → motion x s d false false t v
        ≡ (record v { around = repeat v.count (x.move s d Extent.plain) v.around }, 1)
  unfolding motion
  motion-command_mode s d t v h = rw (← motion_step-plain s d v.fsm.state h) (ground arith)

  run_motion-delete :
      (s : Scope) (d : Direction) (c : ℕ) (v : Vi E)
      → v.fsm.state ≡ ModeState.command
      → x.is_readonly v.around ≡ false
      → is_empty v.insert_command ≡ false
      → run_motion x Motion.delete (motion x s d false false) (c ∷ []) v ≡ (
        (
          record v {
            insert_command = v.insert_command ++ c ∷ [];
            count = 1;
            count_present = false;
            around = deleted s d v.count v;
          },
          [],
        ),
        true,
      )
  unfolding run_motion after_motion append_command
  run_motion-delete s d c v h k e = rw (motion-command_mode s d (c ∷ []) v h) (
      ground (
        arith,
        delete_range-around (pos (x.current_pos v.around))
            (pos (x.current_pos (moved s d v.count v).around)) (moved s d v.count v),
      ))

  -- A count is read, and then a motion `c` is deleted over.
  abbrev pub counted : Text → ℕ → Vi E → Vi E
  counted a n v = record v {
    insert_command = v.insert_command ++ a;
    count = v.count * n;
    count_present = true;
  }

  abbrev pub ended : Scope → Direction → ℕ → Vi E → Vi E
  ended s d c v = record v {
    insert_command = v.insert_command ++ c ∷ [];
    count = 1;
    count_present = false;
    around = deleted s d v.count v;
  }

  motion_by_table-found :
      (m : Motion) (t u : Text) (v w : Vi E) (h : Handler E)
      → is_empty t ≡ false
      → filter_count t v ≡ some (w, u)
      → find_motion (first_or u 0) (motion_commands x) ≡ some h
      → motion_by_table x m t v ≡ some (run_motion x m h u w)
  unfolding motion_by_table
  motion_by_table-found m t u v w h e q f = rw (e, q, f) refl

  pub motion_command-delete :
      (s : Scope) (d : Direction) (b1 : ℕ) (b : Text) (c : ℕ) {j : ℕ} (v : Vi E)
      → IsCount b1 b j
      → is_after_count (c ∷ []) ≡ true
      → is_one_line (c ∷ []) ≡ true
      → v.count * j < 2147483648
      → find_motion c (motion_commands x) ≡ some (motion x s d false false)
      → v.fsm.state ≡ ModeState.command
      → x.is_readonly v.around ≡ false
      → x.selected_text v.around ≡ []
      → motion_command x Motion.delete (b1 ∷ b ++ c ∷ []) v
        ≡ some ((ended s d c (counted (b1 ∷ b) j v), []), true)
  unfolding motion_command
  motion_command-delete s d b1 b c {j} v q w o l f h k z = rw z (
      motion_by_table-found Motion.delete (b1 ∷ b ++ c ∷ []) (c ∷ []) v (counted (b1 ∷ b) j v)
        (motion x s d false false) refl (filter_count-append b1 b (c ∷ []) v q w o l) f
      ∙ ap some (
          run_motion-delete s d c (counted (b1 ∷ b) j v) h k
            (is_empty-append v.insert_command b1 b)))
