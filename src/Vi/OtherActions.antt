-- ===== src/Vi/OtherActions.antt =====
-- What the other commands of class vi do (src/vi/vi.cpp: m_other_commands). `again` is
-- vi::command; REPEAT tests the count anew before each round, which matters where vi::command sets
-- it. `none` means that the fuel ran out.
use wx_extension.Prelude.{
  ℕ, zero, suc, ◌+◌, Bool, true, false, not, ◌&&◌, ◌||◌, Option, none, some, [], ◌∷◌, ◌++◌, Text,
  length, eq_text, if◌then◌else◌, ◌==◌, ltb, ℤ, is_lower, is_digit, to_lower, get_or, replicate,
}
use wx_extension.Core.Text.{is_empty, contains}
use wx_extension.ViMode.Machine.{ModeState}
use wx_extension.Ex.Expansion.{to_text}
use wx_extension.Vi.Component.{Scope, Direction, Extent, FindFlags, Stc, Vi, on_stc}
use wx_extension.Vi.Methods.{delete_range}
use wx_extension.Vi.Motions.{repeat, to_upper, first_or, last_or, one_letter_after, control_r}
use wx_extension.Vi.Insert.{command_reg}

abbrev pub Again : Type 0 → Type 0
Again E = Text → Vi E → Option (Vi E × Bool)

abbrev pub Other : Type 0 → Type 0
Other E = Text → Vi E → Option (Vi E × ℕ)

-- regafter("^R", t) of src/core/util.cpp
unfoldable pub is_register_after : Text → Bool
is_register_after t =
    length t == 2
    && (first_or t 0 == control_r
        && (let c = get_or t 1 0 in
            is_digit c
            || (is_lower c || contains c (b'=' ∷ b'"' ∷ b'%' ∷ b'.' ∷ b'_' ∷ b'*' ∷ []))))

module _ {E : Type 0} (x : Stc E) where
  abbrev pub to_stc : (E → E) → ℕ → Other E
  to_stc f n t v = some (on_stc f v, n)

  abbrev pub delete_chars : (ℕ → ℕ → ℤ × ℤ) → ℕ → Other E
  delete_chars range n t v =
      let r = range (x.current_pos v.around) v.count in some ((delete_range x r.0 r.1 v).0, n)

  unfoldable pub replace_char : Other E
  replace_char t v =
      let p = x.current_pos v.around in
      if not (ltb 1 (length t) && not (x.is_readonly v.around))
      then some (v, 0)
      else if not (x.is_hexmode v.around)
      then some (on_stc (x.replace_target p (p + v.count) (replicate v.count (last_or t 0))) v, 2)
      else (let r = x.hexmode_replace (last_or t 0) v.around in
          some (
            if r.1
            then (record v { around = r.0 }, 2)
            else (record v { around = r.0; typed = [] }, 0)))

  -- s and S: a c command with the count
  unfoldable pub change_by : Text → Again E → Other E
  change_by c again t v = elim (again ((if ltb 1 v.count then to_text v.count else []) ++ c) v) [
    | none ↦ none
    | some r ↦ some (r.0, 1)
  ]

  -- The loop of a dot, from round `i` on.
  unfoldable pub dot_rounds : ℕ → ℕ → Again E → Vi E → Option (Vi E)
  dot_rounds zero i again v = none
  dot_rounds (suc n) i again v =
      if not (ltb i v.count)
      then some v
      else elim (again v.last_command v) [ none ↦ none | some r ↦ dot_rounds n (suc i) again r.0 ]

  unfoldable pub dot_command : ℕ → Again E → Other E
  dot_command n again t v =
      if is_empty v.last_command
      then some (v, 1)
      else elim (dot_rounds n 0 again (record v { dot = true; around = x.begin_undo v.around })) [
        | none ↦ none
        | some w ↦ some (record w { dot = false; around = x.end_undo w.around }, 1)
      ]

  -- The rounds of ~: whether the loop ended, for a return leaves the undo action open.
  unfoldable pub toggle_rounds : ℕ → E → E × Bool
  toggle_rounds zero e = (e, true)
  toggle_rounds (suc n) e =
      elim (if x.current_pos e == x.document_length e then none else x.char_at e) [
        | none ↦ (e, false)
        | some c ↦ toggle_rounds n (
            x.move Scope.char Direction.right Extent.plain
              (x.replace_char (if is_lower c then to_upper c else to_lower c) e))
      ]

  unfoldable pub toggle_case : Other E
  unfolding toggle_rounds
  toggle_case t v =
      let e = v.around in
      if x.document_length e == 0 || (x.is_readonly e || x.is_hexmode e)
      then some (v, 0)
      else (let r = toggle_rounds v.count (x.begin_undo e) in
          some (
            if r.1
            then (record v { around = x.end_undo r.0 }, 1)
            else (record v { around = r.0 }, 0)))

  unfoldable pub shift_command : Other E
  shift_command t v =
      let right = eq_text t (b'>' ∷ []) in
      some (
        on_stc
            (λ e. elim v.fsm.state [
              | ModeState.command ↦ x.shift right (some v.count) e
              | ModeState.visual ↦ x.shift right none e
              | ModeState.visual_line ↦ x.shift right none e
              | ModeState.visual_block ↦ x.shift right none e
              | _ ↦ e
            ])
            v,
        1,
      )

  unfoldable pub word_command : Other E
  word_command t v = some (
    on_stc
        (λ e.
          let w = (if is_empty (x.selected_text e) then x.word e else x.selected_text e) in
          if is_empty w
          then e
          else if eq_text t (b'U' ∷ [])
          then x.browse w e
          else (x.find w FindFlags.whole_word (eq_text t (b'*' ∷ [])) (x.set_find_string w e)).0)
        v,
    1,
  )

  unfoldable pub number_command : Other E
  unfolding repeat
  number_command t v = some (
    on_stc
        (λ e.
          let up = eq_text t (10 ∷ []) in
          let b = x.begin_undo e in
          if x.is_hexmode b
          then b
          else x.end_undo
              (repeat v.count (λ d. elim (x.step_number up d) [ none ↦ d | some d' ↦ d' ]) b))
        v,
    1,
  )

  unfoldable pub register_command : Other E
  unfolding is_register_after command_reg
  register_command t v =
      some
        (if ltb 2 (length t) || is_register_after t then (command_reg x t v, length t) else (v, 0))

  unfoldable pub marker_command : Other E
  unfolding one_letter_after
  marker_command t v =
      some (if one_letter_after b'm' t then (on_stc (x.marker_add (last_or t 0)) v, 2) else (v, 0))
