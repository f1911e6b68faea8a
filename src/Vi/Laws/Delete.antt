-- ===== src/Vi/Laws/Delete.antt =====
-- A counted x delete over a counted x motion, as one command (src/vi/vi.cpp: command,
-- parse_command, other_command, motion_command, delete_range).
use wx_extension.Prelude.{
  ℕ, suc, ◌*◌, ◌<◌, Bool, true, false, Option, none, some, [], ◌∷◌, ◌++◌, Text, eq_text, ◌==◌,
  is_digit, ◌≡◌, refl, arith,
}
use wx_extension.Prelude.{◌∙◌, append_assoc}
use wx_extension.ViMode.Machine.{ModeState}
use wx_extension.Vi.Component.{Scope, Direction, Stc, Vi}
use wx_extension.Vi.Count.{escape_key, set_last_command}
use wx_extension.Vi.Motions.{last_or, motion}
use wx_extension.Vi.MotionTable.{find_motion, motion_commands}
use wx_extension.Vi.Others.{find_other, other_commands}
use wx_extension.Vi.OtherActions.{Again}
use wx_extension.Vi.Parse.{
  other_command, Step, step_more, step_command, check_commands, finish_command, prefix_of, mapped,
  parse_mapped, parse_command, command_with, command, is_escaped, is_recordable,
}
use wx_extension.Vi.MotionCommand.{Motion, get_motion, motion_command}
use wx_extension.Vi.Laws.DeleteMotion.{counted, ended, motion_command-delete}
use wx_extension.Vi.Laws.Counts.{
  IsCount, is_after_count, is_one_line, stoi-bound, filter_count-append, filter_count_plain,
  set_last_command-count,
}

-- A digit is no register and no ex command.
pub digit_is_plain : (c : ℕ) → is_digit c ≡ true → ((c == b'"') ≡ false) × ((c == b':') ≡ false)
digit_is_plain c h = ground arith

pub last_or-append : (t : Text) (c d : ℕ) → last_or (t ++ c ∷ []) d ≡ c
last_or-append [] c d = refl
last_or-append (e ∷ t) c d = last_or-append t c e

is_escaped_last : (t : Text) (c : ℕ) → (c == escape_key) ≡ false → is_escaped (t ++ c ∷ []) ≡ false
is_escaped_last t c h = rw (last_or-append t c 0) (rw h refl)

-- What starts with a digit goes into a macro.
is_recordable-digit : (c : ℕ) (t : Text) → is_digit c ≡ true → is_recordable (c ∷ t) ≡ true
unfolding eq_text
is_recordable-digit c t h = ground arith

module _ {E : Type 0} (x : Stc E) where
  -- a d with a digit behind it is no other command
  find_other-delete :
      (n : ℕ) (again : Again E) (e : ℕ) (r : Text)
      → is_digit e ≡ true
      → find_other (b'd' ∷ e ∷ r) (other_commands x n again) ≡ none
  unfolding find_other other_commands
  find_other-delete n again e r h = ground arith

  other_command-delete :
      (n : ℕ) (again : Again E) (e : ℕ) (r : Text) (v : Vi E)
      → is_digit e ≡ true
      → other_command x n again (b'd' ∷ e ∷ r) v ≡ some ((v, b'd' ∷ e ∷ r), false)
  unfolding other_command
  other_command-delete n again e r v h =
      ground (arith, filter_count_plain (b'd' ∷ e ∷ r) v refl, find_other-delete n again e r h)

  step_command-delete :
      (n : ℕ) (again : Again E) (e : ℕ) (r : Text) (v : Vi E)
      → is_digit e ≡ true
      → step_command x n again (b'd' ∷ e ∷ r) v ≡ some (Step.onward v (e ∷ r) true)
  unfolding step_command step_more get_motion
  step_command-delete n again e r v h = ground (arith, other_command-delete n again e r v h)

  check_commands-motion :
      (n : ℕ) (again : Again E) (m : Motion) (t u : Text) (v w : Vi E)
      → motion_command x m t v ≡ some ((w, u), true)
      → check_commands x n again m t v ≡ some ((w, u), true)
  unfolding check_commands
  check_commands-motion n again m t u v w h = rw (h, check_commands) refl

  -- What the rest of parse_command does with the outcome of a motion that leaves nothing.
  finish_command-done :
      (n : ℕ) (again : Again E) (parse : Text → Vi E → Option (Vi E × Bool)) (org : Text)
      (m : Motion) (t : Text) (v w : Vi E)
      → motion_command x m t v ≡ some ((w, []), true)
      → finish_command x n again parse org m (Step.onward v t true) ≡ some (w, true)
  unfolding finish_command
  finish_command-done n again parse org m t v w h =
      rw (check_commands-motion n again m t [] v w h, finish_command) refl

  -- The state in which a command with a count is tried.
  abbrev pub started : Text → ℕ → Vi E → Vi E
  started a n v = counted x a n (record v { count = 1; register = 0 })

  prefix_of-count :
      (a1 : ℕ) (a : Text) (c : ℕ) (t : Text) {i : ℕ} (v : Vi E)
      → IsCount a1 a i
      → is_after_count (c ∷ t) ≡ true
      → is_one_line (c ∷ t) ≡ true
      → prefix_of x (a1 ∷ (a ++ c ∷ t)) (record v { count = 1 })
        ≡ some (started (a1 ∷ a) i v, c ∷ t)
  unfolding prefix_of
  prefix_of-count a1 a c t v q p o = rw (digit_is_plain a1 q.first_digit).0 (
      filter_count-append a1 a (c ∷ t) (record v { count = 1; register = 0 }) q p o
        (omega (arith, stoi-bound (a1 ∷ a) q.value)))

  mapped-none : (c : ℕ) (t : Text) (e : E) → x.key_map c e ≡ none → mapped x (c ∷ t) e ≡ c ∷ t
  unfolding mapped
  mapped-none c t e k = rw (k, mapped) refl

  parse_mapped-step :
      (n : ℕ) (again : Again E) (parse : Text → Vi E → Option (Vi E × Bool)) (org : Text) (c : ℕ)
      (t : Text) (d : ℕ) (u : Text) (v w : Vi E) (s : Step x)
      → (c == b':') ≡ false
      → prefix_of x (c ∷ t) v ≡ some (w, d ∷ u)
      → step_command x n again (d ∷ u) w ≡ some s
      → parse_mapped x n again parse org (c ∷ t) v
        ≡ finish_command x n again parse org (get_motion d) s
  unfolding parse_mapped
  parse_mapped-step n again parse org c t d u v w s o p q = rw (o, p, q) refl

  -- parse_command, once the register, the count and the first step are known
  parse_command-step :
      (n : ℕ) (c : ℕ) (t : Text) (d : ℕ) (u : Text) (v w : Vi E) (s : Step x)
      → x.key_map c v.around ≡ none
      → (c == b':') ≡ false
      → prefix_of x (c ∷ t) (record v { count = 1 }) ≡ some (w, d ∷ u)
      → step_command x n (command_with x n (parse_command x n)) (d ∷ u) w ≡ some s
      → parse_command x (suc n) (c ∷ t) v
        ≡ finish_command x n
            (command_with x n (parse_command x n))
            (parse_command x n)
            (c ∷ t)
            (get_motion d)
            s
  unfolding parse_command
  parse_command-step n c t d u v w s k o p q =
      rw (mapped-none c t v.around k) (parse_mapped-step n _ _ (c ∷ t) c t d u _ w s o p q)

  -- `d` with the counts of `a` and `b` and the motion `c`.
  parse_command-delete :
      (n : ℕ) (s : Scope) (d : Direction) (a1 : ℕ) (a : Text) (b1 : ℕ) (b : Text) (c : ℕ) {i j : ℕ}
      (v : Vi E)
      → IsCount a1 a i
      → IsCount b1 b j
      → is_after_count (c ∷ []) ≡ true
      → is_one_line (c ∷ []) ≡ true
      → is_one_line (b1 ∷ b ++ c ∷ []) ≡ true
      → i * j < 2147483648
      → find_motion c (motion_commands x) ≡ some (motion x s d false false)
      → v.fsm.state ≡ ModeState.command
      → x.is_readonly v.around ≡ false
      → x.selected_text v.around ≡ []
      → x.key_map a1 v.around ≡ none
      → parse_command x (suc n) (a1 ∷ (a ++ b'd' ∷ b1 ∷ (b ++ c ∷ []))) v
        ≡ some (ended x s d c (counted x (b1 ∷ b) j (started (a1 ∷ a) i v)), true)
  unfolding get_motion
  parse_command-delete n s d a1 a b1 b c {i} v q r w o l g f h k z m =
      parse_command-step n a1 (a ++ b'd' ∷ b1 ∷ (b ++ c ∷ [])) b'd' (b1 ∷ (b ++ c ∷ [])) v
        (started (a1 ∷ a) i v) (Step.onward (started (a1 ∷ a) i v) (b1 ∷ (b ++ c ∷ [])) true) m
        (digit_is_plain a1 q.first_digit).1
        (prefix_of-count a1 a b'd' (b1 ∷ (b ++ c ∷ [])) v q refl l)
        (step_command-delete n _ b1 (b ++ c ∷ []) (started (a1 ∷ a) i v) r.first_digit)
      ∙ finish_command-done n _ _ _ (get_motion b'd') (b1 ∷ (b ++ c ∷ [])) (started (a1 ∷ a) i v) _
          (motion_command-delete x s d b1 b c (started (a1 ∷ a) i v) r w o (omega (arith, g)) f h k
            z)

  -- What vi::command does in command mode with a command that succeeds.
  command-parsed :
      (n : ℕ) (c : ℕ) (t : Text) (v w : Vi E)
      → x.is_active v.around ≡ true
      → v.fsm.state ≡ ModeState.command
      → w.fsm.state ≡ ModeState.command
      → w.dot ≡ false
      → is_escaped (c ∷ t) ≡ false
      → is_recordable (c ∷ t) ≡ true
      → parse_command x n (c ∷ t) v ≡ some (w, true)
      → set_last_command (c ∷ t) w ≡ record w { last_command = c ∷ t }
      → command x n (c ∷ t) v
        ≡ some (
          record w {
            last_command = c ∷ t;
            around = x.auto_write (x.record_macro (c ∷ t) false w.around);
          },
          true,
        )
  unfolding command command_with
  command-parsed n c t v w a m m' k e r p l = ground (arith, a, m, m', k, e, r, p, l)

  -- a `d` with the counts `a` and `b` and the motion `c`
  abbrev pub typed_delete : Text → Text → ℕ → Text
  typed_delete a b c = (a ++ b'd' ∷ b) ++ c ∷ []

  -- A delete with a count before it and one before its motion, where vi is active, in command mode
  -- and in no dot, the component can be changed, nothing is selected, the first digit is mapped to
  -- nothing, the product of the counts is an int, and the motion is a key, no digit or escape or
  -- newline, that only moves: the motion is
  -- done as often as the two counts multiply to, delete_range takes what it moved over, the count
  -- is 1 again, and the command is kept as the last one and given to the macro. The counts and the
  -- motion are also left in the insert command.
  pub command-delete :
      (n : ℕ) (s : Scope) (d : Direction) (a1 : ℕ) (a : Text) (b1 : ℕ) (b : Text) (c : ℕ) {i j : ℕ}
      (v : Vi E)
      → IsCount a1 a i
      → IsCount b1 b j
      → i * j < 2147483648
      → find_motion c (motion_commands x) ≡ some (motion x s d false false)
      → is_after_count (c ∷ []) ≡ true
      → is_one_line (b1 ∷ b ++ c ∷ []) ≡ true
      → is_one_line (c ∷ []) ≡ true
      → (c == escape_key) ≡ false
      → x.is_active v.around ≡ true
      → v.fsm.state ≡ ModeState.command
      → v.dot ≡ false
      → x.is_readonly v.around ≡ false
      → x.selected_text v.around ≡ []
      → x.key_map a1 v.around ≡ none
      → command x (suc n) (typed_delete (a1 ∷ a) (b1 ∷ b) c) v ≡ (
          let w = ended x s d c (counted x (b1 ∷ b) j (started (a1 ∷ a) i v)) in
          let t = typed_delete (a1 ∷ a) (b1 ∷ b) c in
          some (
            record w { last_command = t; around = x.auto_write (x.record_macro t false w.around) },
            true,
          ))
  command-delete n s d a1 a b1 b c {i} {j} v q r bound f w l o z g h k y m u =
      command-parsed (suc n) a1 ((a ++ b'd' ∷ b1 ∷ b) ++ c ∷ []) v
        (ended x s d c (counted x (b1 ∷ b) j (started (a1 ∷ a) i v))) g h h k
        (is_escaped_last (a1 ∷ (a ++ b'd' ∷ b1 ∷ b)) c z) (is_recordable-digit a1 _ q.first_digit)
        (rw (append_assoc a (b'd' ∷ b1 ∷ b) (c ∷ []))
          (parse_command-delete n s d a1 a b1 b c v q r w o l bound f h y m u))
        (rw (append_assoc a (b'd' ∷ b1 ∷ b) (c ∷ []))
          (set_last_command-count a1 a b'd' (b1 ∷ (b ++ c ∷ [])) _ q refl l refl))
