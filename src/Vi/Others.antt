-- ===== src/Vi/Others.antt =====
-- The table of the other commands of class vi (src/vi/vi.cpp: m_other_commands). `again` is
-- vi::command.
use wx_extension.Prelude.{
  ℕ, ◌+◌, Bool, true, false, ◌||◌, Option, none, some, List, [], ◌∷◌, Text, length, if◌then◌else◌,
  ◌==◌, leb, pos, ◌-ℤ◌, is_lower, is_upper,
}
use wx_extension.Core.Text.{contains}
use wx_extension.Prelude.{is_prefix}
use wx_extension.ViMode.Transition as Mode
use wx_extension.Vi.Component.{Scope, Direction, Extent, Stc, on_stc}
use wx_extension.Vi.Methods.{delete_range, put}
use wx_extension.Vi.Motions.{repeat, first_or, control_r}
use wx_extension.Vi.OtherActions.{
  Other, Again, marker_command, replace_char, change_by, dot_command, toggle_case, shift_command,
  word_command, number_command, register_command, to_stc, delete_chars,
}

-- The test of an entry: one of the chars of a key that starts with no letter, or the whole key.
unfoldable pub starts_entry : Text → Text → Bool
starts_entry t keys =
    if is_lower (first_or keys 0) || is_upper (first_or keys 0)
    then is_prefix keys t
    else contains (first_or t 0) keys

unfoldable pub find_other : {H : Type 0} → Text → List (Text × H) → Option H
unfolding starts_entry
find_other t [] = none
find_other t ((keys, h) ∷ r) = if starts_entry t keys then some h else find_other t r

module _ {E : Type 0} (x : Stc E) where
  abbrev put_command : Bool → Other E
  put_command is_after t v = some (repeat v.count (λ w. (put x is_after w).0) v, 1)

  abbrev macro_command : Other E
  macro_command t v =
      let r = x.macro_mode t v.count v.around in some (record v { around = r.0 }, r.1)

  unfoldable pub other_commands : ℕ → Again E → List (Text × Other E)
  unfolding replace_char change_by dot_command toggle_case shift_command word_command number_command
      register_command marker_command repeat put delete_range
  other_commands n again =
      (b'm' ∷ [], marker_command x)
      ∷ (b'p' ∷ [], put_command true)
      ∷ (b'q' ∷ [], macro_command)
      ∷ (b'@' ∷ [], macro_command)
      ∷ (b'r' ∷ [], replace_char x)
      ∷ (b's' ∷ [], change_by x (b'c' ∷ 32 ∷ []) again)
      ∷ (b'u' ∷ [], to_stc x x.undo 1)
      ∷ (b'x' ∷ [], delete_chars x (λ p n. (pos p, pos (p + n))) 1)
      ∷ (b'J' ∷ [], λ t v. some (on_stc (x.join (v.count + 1)) v, 1))
      ∷ (b'P' ∷ [], put_command false)
      ∷ (b'S' ∷ [], change_by x (b'c' ∷ b'_' ∷ []) again)
      ∷ (b'Q' ∷ [], to_stc x (x.tags b'Q') 1)
      ∷ (23 ∷ [], to_stc x (x.tags 23) 1)
      ∷ (20 ∷ [], to_stc x (x.tags 20) 1)
      ∷ (22 ∷ [], to_stc x (x.tags 22) 1)
      ∷ (b'X' ∷ [], delete_chars x (λ p n. (pos p -ℤ pos n, pos p)) 1)
      ∷ (b'd' ∷ b'd' ∷ [], λ t v. some (on_stc (λ e. (x.erase_lines v.count e).0) v, length t))
      ∷ (
        b'd' ∷ b'g' ∷ b'g' ∷ [],
        λ t v.
            let e = v.around in
            some
              ((delete_range x (pos 0) (x.position_from_line (pos (x.current_line e)) e) v).0, 3),
      )
      ∷ (
        b'g' ∷ b'g' ∷ [],
        λ t v. some (
          on_stc
              (x.move Scope.document Direction.start
                (if Mode.is_visual v.fsm then Extent.extend else Extent.plain))
              v,
          2,
        ),
      )
      ∷ (b'y' ∷ b'y' ∷ [], λ t v. some (on_stc (λ e. (x.yank_lines v.count e).0) v, length t))
      ∷ (b'Z' ∷ b'Z' ∷ [], to_stc x (x.window (b'Z' ∷ b'Z' ∷ [])) 2)
      ∷ (
        b'z' ∷ [],
        λ t v. some (if leb (length t) 1 then (v, 0) else (on_stc (x.fold t) v, length t)),
      )
      ∷ (b'.' ∷ [], dot_command x n again)
      ∷ (b'~' ∷ [], toggle_case x)
      ∷ (b'>' ∷ b'<' ∷ [], shift_command x)
      ∷ (b'*' ∷ b'#' ∷ b'U' ∷ [], word_command x)
      ∷ (
        9 ∷ [],
        λ t v. some (if x.column v.around == 0 then (record v { typed = [] }, 0) else (v, 1)),
      )
      ∷ (
        8 ∷ [],
        λ t v. some (
          on_stc (λ e. if x.is_readonly e || x.is_hexmode e then e else x.delete_back e) v,
          length t,
        ),
      )
      ∷ (10 ∷ 12 ∷ [], number_command x)
      ∷ (control_r ∷ [], register_command x)
      ∷ (127 ∷ [], delete_chars x (λ p n. (pos p, pos (p + n))) 1)
      ∷ []
