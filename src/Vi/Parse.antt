-- ===== src/Vi/Parse.antt =====
-- The commands of class vi (src/vi/vi.cpp: other_command, parse_command, command). `none` means
-- that the fuel ran out, that a text is read behind its end, or that a count is no int; each nested
-- call takes one of the fuel.
use wx_extension.Prelude.{
  ℕ, zero, suc, Bool, true, false, not, ◌&&◌, ◌||◌, Option, none, some, [], ◌∷◌, ◌++◌, Text, length,
  drop, eq_text, if◌then◌else◌, ◌==◌, ltb, get_or,
}
use wx_extension.Core.Text.{is_empty, contains}
use wx_extension.Prelude.{contains_text}
use wx_extension.ViMode.Transition as Mode
use wx_extension.Vi.Component.{Stc, Vi, on_stc}
use wx_extension.Vi.Count.{escape_key, filter_count, set_last_command}
use wx_extension.Vi.Methods.{mode_escape, mode_transition}
use wx_extension.Vi.Motions.{first_or, last_or, selection_range}
use wx_extension.Vi.Insert.{insert_mode, calc_key, pop_back}
use wx_extension.Vi.MotionCommand.{Motion, get_motion, Outcome, motion_command}
use wx_extension.Vi.Others.{find_other, other_commands}
use wx_extension.Vi.OtherActions.{Again}

-- two escapes at the end
abbrev pub is_escaped : Text → Bool
is_escaped t = last_or t 0 == escape_key && last_or (pop_back t) 0 == escape_key

-- The commands that a macro gets.
abbrev pub is_recordable : Text → Bool
is_recordable t =
    not (contains (first_or t 0) (b'q' ∷ b':' ∷ b'!' ∷ []))
    && (not (eq_text t (b'/' ∷ [])) && (not (eq_text t (b'?' ∷ [])) && not (eq_text t calc_key)))

module _ {E : Type 0} (x : Stc E) where
  unfoldable pub other_command : ℕ → Again E → Text → Vi E → Option (Outcome x)
  other_command n again t v = if is_empty t then some ((v, t), false) else elim (filter_count t v) [
    | none ↦ none
    | some r ↦ elim (find_other r.1 (other_commands x n again)) [
      | none ↦ some (r, false)
      | some h ↦ elim (h r.1 r.0) [
        | none ↦ none
        | some s ↦ some (if s.1 == 0 then ((s.0, r.1), false) else ((s.0, drop s.1 r.1), true))
      ]
    ]
  ]

  -- The switch on the size of the command: a result, or the command that is left and check_other.
  pub data Step : Type 0 where
    returned : Vi E → Step
    onward : Vi E → Text → Bool → Step

  abbrev is_navigate : Motion → Bool
  is_navigate m = elim m [ Motion.navigate ↦ true | _ ↦ false ]

  -- m_mode.transition(command), or the end of the insert command
  abbrev try_mode : Text → Vi E → Step
  try_mode t v =
      let r = mode_transition x t v in
      if r.1
      then Step.onward r.0.0 r.0.1 false
      else Step.onward (record r.0.0 { insert_command = [] }) r.0.1 true

  unfoldable pub step_one : Motion → Text → Vi E → Step
  unfolding mode_transition mode_escape
  step_one m t v =
      if Mode.is_visual v.fsm && not (is_navigate m)
      then (let w = (mode_escape x v).0 in
          elim m [
            | Motion.change ↦ Step.onward (mode_transition x (b'i' ∷ []) w).0.0 [] true
            | _ ↦ Step.onward w [] true
          ])
      else try_mode t v

  unfoldable pub step_more : Motion → Text → Vi E → Step
  unfolding mode_transition
  step_more m t v = elim m [
    | Motion.change ↦ let r = mode_transition x t v in Step.onward r.0.0 r.0.1 true
    | Motion.navigate ↦ try_mode t v
    | _ ↦ Step.onward v (drop 1 t) true
  ]

  unfoldable pub step_command : ℕ → Again E → Text → Vi E → Option Step
  step_command n again t v =
      let m = get_motion (first_or t 0) in
      if length t == 1 then some (step_one m t v) else elim (other_command n again t v) [
        | none ↦ none
        | some r ↦ if r.1 then some (Step.returned r.0.0) else some (step_more m r.0.1 r.0.0)
      ]

  -- the motion or the other command, where they are to be checked
  unfoldable pub check_commands : ℕ → Again E → Motion → Text → Vi E → Option (Outcome x)
  check_commands n again m t v = elim (motion_command x m t v) [
    | none ↦ none
    | some r ↦ if r.1 then some r else other_command n again r.0.1 r.0.0
  ]

  -- What stands behind the switch; `parse` is the recursive call.
  unfoldable pub finish_command :
      ℕ
      → Again E
      → (Text → Vi E → Option (Vi E × Bool))
      → Text
      → Motion
      → Step
      → Option (Vi E × Bool)
  finish_command n again parse org m s = elim s [
    | returned v ↦ some (v, true)
    | onward v t check ↦
        elim (if check then check_commands n again m t v else some ((v, t), true)) [
          | none ↦ none
          | some r ↦
              let w = r.0.0 in
              let left = r.0.1 in
              if not r.1
              then some (w, false)
              else if is_empty left
              then some (w, true)
              else if Mode.is_insert w.fsm
              then insert_mode x n left w
              else if eq_text left org
              then some (w, false)
              else parse left w
        ]
  ]

  -- The register or the count before a command; `none` where one char is all there is.
  unfoldable pub prefix_of : Text → Vi E → Option (Vi E × Text)
  prefix_of t v =
      if first_or t 0 == b'"'
      then (if ltb (length t) 2
          then none
          else some (record v { register = get_or t 1 0 }, drop 2 t))
      else filter_count t (record v { register = 0 })

  unfoldable pub mapped : Text → E → Text
  mapped t e = elim (x.key_map (first_or t 0) e) [ none ↦ t | some u ↦ u ]

  -- vi::command; `parse` is parse_command
  unfoldable pub command_with : ℕ → (Text → Vi E → Option (Vi E × Bool)) → Again E
  command_with n parse t v =
      if is_empty t || not (x.is_active v.around)
      then some (v, false)
      else (let tried = Mode.is_visual v.fsm && not (contains_text selection_range t) in
          let r = x.ex_command (t ++ selection_range) v.around in
          if tried && r.1
          then some (record v { around = x.auto_write r.0 }, true)
          else (let w = (if tried then record v { around = r.0 } else v) in
              if Mode.is_insert w.fsm
              then insert_mode x n t w
              else if not w.dot && (ltb 2 (length t) && is_escaped t)
              then some (on_stc x.auto_write (record (mode_escape x w).0 { typed = [] }), true)
              else elim (parse t w) [
                | none ↦ none
                | some s ↦
                    if not s.1
                    then some (s.0, false)
                    else (let u = if s.0.dot then s.0 else set_last_command t s.0 in
                        some (
                          on_stc
                              (λ e. x.auto_write (
                                if not (Mode.is_insert u.fsm) && is_recordable t
                                then x.record_macro t false e
                                else e))
                              u,
                          true,
                        ))
              ]))

  -- parse_command, behind the key map
  unfoldable pub parse_mapped :
      ℕ → Again E → (Text → Vi E → Option (Vi E × Bool)) → Text → Text → Vi E → Option (Vi E × Bool)
  parse_mapped n again parse org t v =
      if first_or t 0 == b':'
      then (let r = x.ex_command t v.around in some (record v { around = r.0 }, r.1))
      else elim (prefix_of t v) [
        | none ↦ some (v, false)
        | some r ↦ if is_empty r.1 then some (r.0, false) else elim (step_command n again r.1 r.0) [
          | none ↦ none
          | some s ↦ finish_command n again parse org (get_motion (first_or r.1 0)) s
        ]
      ]

  unfoldable pub parse_command : ℕ → Text → Vi E → Option (Vi E × Bool)
  parse_command zero org v = none
  parse_command (suc n) org v =
      parse_mapped n (command_with n (parse_command n)) (parse_command n) org (mapped org v.around)
        (record v { count = 1 })

  unfoldable pub command : ℕ → Again E
  command n = command_with n (parse_command n)
