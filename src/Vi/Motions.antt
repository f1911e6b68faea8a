-- ===== src/Vi/Motions.antt =====
-- The motion commands of class vi (src/vi/vi.cpp: MOTION, REPEAT and m_motion_commands). A handler
-- has the command that is left, and gives how much of it is done, 0 for failure.
use wx_extension.Prelude.{
  ℕ, zero, suc, ◌-◌, Bool, true, false, not, ◌&&◌, ◌||◌, Option, none, some, [], ◌∷◌, ◌++◌, Text,
  length, drop, eq_text, if◌then◌else◌, ◌==◌, ltb, leb, ℤ, negsuc, eqb_ℤ, newline, is_lower,
  is_upper, to_lower, get_or,
}
use wx_extension.Core.Text.{is_empty}
use wx_extension.ViMode.Machine.{Effect, ModeState}
use wx_extension.ViMode.Transition as Mode
use wx_extension.Vi.Component.{Scope, Direction, Extent, FindFlags, Stc, Vi, on_stc}

abbrev is_line : Scope → Bool
is_line s = elim s [ Scope.line ↦ true | _ ↦ false ]

abbrev stays_in_lines : Scope → Bool
stays_in_lines s = elim s [ Scope.char ↦ true | Scope.word ↦ true | _ ↦ false ]

abbrev is_down : Direction → Bool
is_down d = elim d [ Direction.down ↦ true | _ ↦ false ]

-- REPEAT of what cannot fail
unfoldable pub repeat : {A : Type 0} → ℕ → (A → A) → A → A
repeat zero f a = a
repeat (suc n) f a = repeat n f (f a)

-- REPEAT of a search that returns at the first failure
unfoldable pub repeat_find : {A : Type 0} → ℕ → (A → A × Bool) → A → A × Bool
repeat_find zero f a = (a, true)
repeat_find (suc n) f a = let rest = repeat_find n f (f a).0 in if (f a).1 then rest else f a

abbrev pub to_upper : ℕ → ℕ
to_upper c = if is_lower c then c - 32 else c

abbrev pub last_or : Text → ℕ → ℕ
last_or [] d = d
last_or (c ∷ t) d = last_or t c

abbrev pub first_or : Text → ℕ → ℕ
first_or [] d = d
first_or (c ∷ t) d = c

-- one_letter_after of src/core/util.cpp, for a text of one plain char
unfoldable pub one_letter_after : ℕ → Text → Bool
one_letter_after c t = elim t [ d ∷ e ∷ [] ↦ d == c && (is_lower e || is_upper e) | _ ↦ false ]

abbrev pub control_r : ℕ
control_r = 18

-- '<,'>
abbrev pub selection_range : Text
selection_range = 39 ∷ b'<' ∷ b',' ∷ 39 ∷ b'>' ∷ []

-- The char that is searched, and the command that gives the direction, if there are any.
unfoldable pub find_char_target : Text → Text → Option (ℕ × ℕ)
find_char_target [] last = none
find_char_target (k ∷ []) last =
    if (k == b';' || k == b',') && not (is_empty last)
    then some (
      last_or last 0,
      if k == b';'
          then first_or last 0
          else if is_lower (first_or last 0)
          then to_upper (first_or last 0)
          else to_lower (first_or last 0),
    )
    else none
find_char_target (k ∷ c ∷ t) last =
    if k == b';'
    then some (c, first_or last 0)
    else if k == b','
    then some (
      c,
      if is_lower (first_or last 0) then to_upper (first_or last 0) else to_lower (first_or last 0),
    )
    else some (c, k)

module _ {E : Type 0} (x : Stc E) where
  -- one round of MOTION
  unfoldable pub motion_step : Scope → Direction → Bool → ModeState → E → E
  motion_step s d wrap m e = elim m [
    | ModeState.command ↦ x.move s d Extent.plain (
        if wrap && is_line s
        then x.effect (if is_down d then Effect.line_end else Effect.home) e
        else e)
    | ModeState.insert ↦ x.move s d Extent.plain (
        if wrap && is_line s
        then x.effect (if is_down d then Effect.line_end else Effect.home) e
        else e)
    | ModeState.visual ↦ x.move s d Extent.extend e
    | ModeState.visual_line ↦ if stays_in_lines s then e else x.move s d Extent.extend e
    | ModeState.visual_block ↦ x.move s d Extent.rect_extend e
    | ModeState.insert_block ↦ e
  ]

  unfoldable pub motion_end : Scope → Bool → ModeState → E → E
  motion_end s cond m e = if not (is_line s) then e else (elim m [
    | ModeState.command ↦
        if cond && not (x.column e == x.indentation e)
        then x.move Scope.vc Direction.home Extent.plain e
        else e
    | ModeState.insert ↦
        if cond && not (x.column e == x.indentation e)
        then x.move Scope.vc Direction.home Extent.plain e
        else e
    | ModeState.visual ↦ if cond then x.move Scope.vc Direction.home Extent.extend e else e
    | _ ↦ e
  ])

  -- MOTION(SCOPE, DIRECTION, COND, WRAP)
  unfoldable pub motion : Scope → Direction → Bool → Bool → Text → Vi E → Vi E × ℕ
  unfolding motion_step motion_end repeat
  motion s d cond wrap t v = (
    on_stc
        (λ e. motion_end s cond v.fsm.state (repeat v.count (motion_step s d wrap v.fsm.state) e))
        v,
    1,
  )

  abbrev plain_motion : Scope → Direction → Text → Vi E → Vi E × ℕ
  plain_motion s d = motion s d false false

  abbrev done : Vi E → ℕ → Vi E × ℕ
  done v n = (v, n)

  unfoldable pub left_motion : Text → Vi E → Vi E × ℕ
  unfolding motion
  left_motion t v =
      if ltb 0 (x.column v.around) then plain_motion Scope.char Direction.left t v else (v, 1)

  unfoldable pub right_motion : Text → Vi E → Vi E × ℕ
  unfolding motion
  right_motion t v =
      if eq_text t (b'l' ∷ []) && leb (x.line_end_position v.around) (x.current_pos v.around)
      then (v, 1)
      else plain_motion Scope.char Direction.right t v

  -- the search of `c`, in the direction of `d`
  unfoldable pub find_towards : Text → ℕ → ℕ → Vi E → Vi E × ℕ
  find_towards t c d v =
      let r = repeat_find v.count (x.find (c ∷ []) FindFlags.no_flags (is_lower d)) v.around in
      if not r.1 then (record v { around = r.0; typed = [] }, 0) else (
        record v {
          last_find = if first_or t 0 == b',' || first_or t 0 == b';' then v.last_find else t;
          around =
              if to_lower d == b't' then x.move Scope.char Direction.left Extent.plain r.0 else r.0;
        },
        length t,
      )

  unfoldable pub find_char_motion : Text → Vi E → Vi E × ℕ
  unfolding find_towards
  find_char_motion t v = elim (find_char_target t v.last_find) [
    | none ↦ (v, 0)
    | some (c, d) ↦ find_towards t c d v
  ]

  abbrev eqb : Bool → Bool → Bool
  eqb a b = if a then b else not b

  unfoldable pub find_next_motion : Text → Vi E → Vi E × ℕ
  unfolding repeat_find
  find_next_motion t v =
      let r =
        repeat_find v.count
          (λ e.
            x.find (x.search_text e) FindFlags.search_flags
              (eqb (eq_text t (b'n' ∷ [])) v.search_forward) e)
          v.around in
      if r.1 then (record v { around = r.0 }, 1) else (record v { around = r.0; typed = [] }, 0)

  unfoldable pub goto_motion : Text → Vi E → Vi E × ℕ
  goto_motion t v = (
    on_stc
        (λ e.
          if v.count == 1 && not v.count_present
          then x.move Scope.document Direction.end
              (if Mode.is_visual v.fsm then Extent.extend else Extent.plain) e
          else x.inject_line v.count e)
        v,
    1,
  )

  unfoldable pub screen_motion : (E → ℤ) → Text → Vi E → Vi E × ℕ
  screen_motion f t v = (on_stc (λ e. x.goto_line (f e) e) v, 1)

  -- the text behind / or ?, searched
  unfoldable pub search_for : Text → Text → Bool → Vi E → Vi E × ℕ
  search_for t text sets v =
      let r = x.find text FindFlags.search_flags v.search_forward v.around in
      if r.1
      then (record v { around = if sets then x.set_find_string text r.0 else r.0 }, length t)
      else (record v { around = r.0 }, 0)

  unfoldable pub search_motion : Text → Vi E → Vi E × ℕ
  unfolding search_for
  search_motion t v =
      let w = record v { search_forward = first_or t 0 == b'/' } in
      if ltb 1 (length t)
      then (if get_or t 1 0 == control_r
          then (if ltb (length t) 3
              then (w, 0)
              else search_for t (x.get_register (get_or t 2 0) w.around) true w)
          else search_for t (if last_or t 0 == newline then x.trim (drop 1 t) else drop 1 t)
              (eqb_ℤ (x.margin_click w.around) (negsuc 0)) w)
      else if not (x.is_visual w.around)
      then (w, 0)
      else (let r =
            x.show_ex_command (t ++ (if Mode.is_visual v.fsm then selection_range else []))
              w.around in
          (record w { around = r.0 }, if r.1 then length t else 0))
