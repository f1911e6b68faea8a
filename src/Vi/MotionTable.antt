-- ===== src/Vi/MotionTable.antt =====
-- The motion commands that are left, and the table of them all (src/vi/vi.cpp: m_motion_commands).
use wx_extension.Prelude.{
  ℕ, ◌+◌, ◌-◌, ◌/◌, true, false, Option, none, some, List, [], ◌∷◌, Text, length, eq_text,
  if◌then◌else◌, ◌==◌, ltb, pos, ◌+ℤ◌, ◌-ℤ◌,
}
use wx_extension.Core.Text.{contains}
use wx_extension.ViMode.Machine.{Effect}
use wx_extension.Vi.Component.{Scope, Direction, FindFlags, Stc, Vi, on_stc}
use wx_extension.Vi.Methods.{visual_extend}
use wx_extension.Vi.Motions.{
  repeat_find, first_or, last_or, one_letter_after, motion, left_motion, right_motion,
  find_char_motion, find_next_motion, goto_motion, screen_motion, search_motion,
}

abbrev pub Handler : Type 0 → Type 0
Handler E = Text → Vi E → Vi E × ℕ

-- \{ and [(\[{\])}]
abbrev open_brace : Text
open_brace = 92 ∷ b'{' ∷ []

abbrev any_brace : Text
any_brace = b'[' ∷ b'(' ∷ 92 ∷ b'[' ∷ b'{' ∷ 92 ∷ b']' ∷ b')' ∷ b'}' ∷ b']' ∷ []

-- The first entry with a key that the command starts with.
unfoldable pub find_motion : {H : Type 0} → ℕ → List (Text × H) → Option H
find_motion c [] = none
find_motion c ((keys, h) ∷ t) = if contains c keys then some h else find_motion c t

module _ {E : Type 0} (x : Stc E) where
  unfoldable pub marker_motion : Handler E
  unfolding one_letter_after visual_extend
  marker_motion t v =
      if one_letter_after 39 t
      then (let w = on_stc (x.marker_goto (last_or t 0)) v in
          (visual_extend x (pos (x.current_pos v.around)) (pos (x.current_pos w.around)) w, 2))
      else (v, 0)

  unfoldable pub bracket_motion : Handler E
  unfolding repeat_find
  bracket_motion t v =
      let r =
        repeat_find v.count (x.find open_brace FindFlags.search_flags (eq_text t (b']' ∷ [])))
          v.around in
      if r.1 then (record v { around = r.0 }, 1) else (record v { around = r.0; typed = [] }, 0)

  unfoldable pub column_motion : Handler E
  column_motion t v = (
    on_stc
        (λ e.
          x.goto_pos (x.position_from_line (pos (x.current_line e)) e +ℤ pos v.count -ℤ pos 1) e)
        v,
    1,
  )

  -- the brace at the position, or the one before it
  unfoldable pub brace_motion : Handler E
  unfolding visual_extend
  brace_motion t v =
      let p = pos (x.current_pos v.around) in
      elim (x.brace_match p v.around) [
        | some m ↦ (visual_extend x p (pos m +ℤ pos 1) (on_stc (x.goto_pos (pos m)) v), 1)
        | none ↦ elim (x.brace_match (p -ℤ pos 1) v.around) [
          | some m ↦
              (visual_extend x (p -ℤ pos 1) (pos m +ℤ pos 1) (on_stc (x.goto_pos (pos m)) v), 1)
          | none ↦ (on_stc (λ e. (x.find any_brace FindFlags.regexp true e).0) v, 1)
        ]
      ]

  unfoldable pub shell_motion : Handler E
  shell_motion t v =
      if ltb 1 (length t)
      then (on_stc (λ e. (x.ex_command (b':' ∷ t) e).0) v, length t)
      else (on_stc (λ e. if x.is_visual e then (x.show_ex_command t e).0 else e) v, 1)

  unfoldable pub line_motion : Handler E
  unfolding motion
  line_motion t v =
      let w = on_stc (x.effect Effect.home) v in
      motion x Scope.line Direction.down false false t
        (if first_or t 0 == b'_' then record w { count = v.count - 1 } else w)

  abbrev move_by : Scope → Direction → Handler E
  move_by s d = motion x s d false false

  unfoldable pub motion_commands : List (Text × Handler E)
  unfolding left_motion right_motion find_char_motion find_next_motion goto_motion screen_motion
      search_motion marker_motion bracket_motion column_motion brace_motion shell_motion line_motion
  motion_commands =
      (b'h' ∷ [], left_motion x)
      ∷ (b'j' ∷ [], move_by Scope.line Direction.down)
      ∷ (b'k' ∷ [], move_by Scope.line Direction.up)
      ∷ (b'l' ∷ 32 ∷ [], right_motion x)
      ∷ (b'b' ∷ [], move_by Scope.word Direction.left)
      ∷ (b'B' ∷ [], move_by Scope.big_word Direction.left)
      ∷ (b'e' ∷ [], move_by Scope.word Direction.right_end)
      ∷ (b'E' ∷ [], move_by Scope.big_word Direction.right_end)
      ∷ (b'w' ∷ [], move_by Scope.word Direction.right)
      ∷ (b'W' ∷ [], move_by Scope.big_word Direction.right)
      ∷ (b'f' ∷ b'F' ∷ b't' ∷ b'T' ∷ b',' ∷ b';' ∷ [], find_char_motion x)
      ∷ (b'n' ∷ b'N' ∷ [], find_next_motion x)
      ∷ (b'G' ∷ [], goto_motion x)
      ∷ (b'H' ∷ [], screen_motion x (λ e. pos (x.first_visible_line e)))
      ∷ (
        b'L' ∷ [],
        screen_motion x (λ e. pos (x.first_visible_line e + x.lines_on_screen e) -ℤ pos 1),
      )
      ∷ (b'M' ∷ [], screen_motion x (λ e. pos (x.first_visible_line e + x.lines_on_screen e / 2)))
      ∷ (b'/' ∷ b'?' ∷ [], search_motion x)
      ∷ (39 ∷ [], marker_motion)
      ∷ (b'0' ∷ [], move_by Scope.line Direction.home)
      ∷ (b'^' ∷ [], move_by Scope.vc Direction.home)
      ∷ (b'[' ∷ b']' ∷ [], bracket_motion)
      ∷ (b'(' ∷ b'{' ∷ [], move_by Scope.para Direction.up)
      ∷ (b')' ∷ b'}' ∷ [], move_by Scope.para Direction.down)
      ∷ (b'+' ∷ [], motion x Scope.line Direction.down true true)
      ∷ (b'|' ∷ [], column_motion)
      ∷ (b'-' ∷ [], motion x Scope.line Direction.up true true)
      ∷ (b'$' ∷ [], move_by Scope.line Direction.end)
      ∷ (b'%' ∷ [], brace_motion)
      ∷ (b'!' ∷ [], shell_motion)
      ∷ (13 ∷ b'_' ∷ [], line_motion)
      ∷ (2 ∷ [], move_by Scope.page Direction.up)
      ∷ (4 ∷ [], move_by Scope.page Direction.scroll_down)
      ∷ (5 ∷ [], move_by Scope.line Direction.scroll_down)
      ∷ (6 ∷ [], move_by Scope.page Direction.down)
      ∷ (13 ∷ [], move_by Scope.line Direction.down)
      ∷ (16 ∷ [], move_by Scope.line Direction.up)
      ∷ (21 ∷ [], move_by Scope.page Direction.scroll_up)
      ∷ (25 ∷ [], move_by Scope.line Direction.scroll_up)
      ∷ []
