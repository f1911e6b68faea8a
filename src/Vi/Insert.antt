-- ===== src/Vi/Insert.antt =====
-- Typing in insert mode (src/vi/vi.cpp: command_reg, insert_mode, insert_mode_normal). `none` means
-- that the fuel ran out, or that a text is read behind its end. A char is never WXK_NUMPAD_ENTER,
-- which is 370.
use wx_extension.Prelude.{
  ℕ, zero, suc, ◌+◌, ◌-◌, Bool, true, false, not, ◌&&◌, Option, none, some, List, [], ◌∷◌, ◌++◌,
  Text, length, take, drop, eq_text, if◌then◌else◌, ◌==◌, ltb, pos, newline, space, get_or, concat,
  replicate,
}
use wx_extension.Core.Text.{is_empty, contains, find_last_of}
use wx_extension.Prelude.{is_prefix}
use wx_extension.ViMode.Transition as Mode
use wx_extension.Ex.Expansion.{marker_and_register_expansion}
use wx_extension.Vi.Component.{Stc, Vi, on_stc}
use wx_extension.Vi.Count.{append_command, escape_key}
use wx_extension.Vi.Methods.{append_text, mode_escape, delete_range, put}
use wx_extension.Vi.Motions.{first_or, last_or, control_r, repeat}

abbrev pub pop_back : Text → Text
pop_back [] = []
pop_back (c ∷ t) = if is_empty t then [] else c ∷ pop_back t

abbrev pub calc_key : Text
calc_key = control_r ∷ b'=' ∷ []

-- " ;\t"
abbrev word_ends : Text
word_ends = space ∷ b';' ∷ 9 ∷ []

-- last + 1, for the last char of the set that is not behind `start`
abbrev behind_last : ℕ → Text → ℕ
behind_last start t = elim (find_last_of word_ends start t) [ none ↦ 0 | some i ↦ i + 1 ]

-- t.replace(i, n, u)
abbrev replace_at : ℕ → ℕ → Text → Text → Text
replace_at i n u t = take i t ++ (u ++ drop n (drop i t))

module _ {E : Type 0} (x : Stc E) where
  unfoldable pub command_reg : Text → Vi E → Vi E
  unfolding append_command append_text put
  command_reg t v =
      let r = first_or t 0 in
      let insert = Mode.is_insert v.fsm in
      let sum = x.calculator (drop 2 t) v.around in
      let value = x.get_register r v.around in
      if r == 0
      then v
      else if r == control_r
      then (if eq_text (take 1 (drop 1 t)) (b'=' ∷ []) && x.is_visual v.around
          then (if length t == 2
              then on_stc (λ e. (x.show_ex_command t (x.set_register b'.' [] e)).0) v
              else if insert
              then append_command t (
                  on_stc (x.add_text sum)
                    (if contains b'c' v.last_command then on_stc (x.replace_selection []) v else v))
              else on_stc (λ e. x.show_message sum (x.set_register b'0' sum e)) v)
          else on_stc (x.show_message []) v)
      else if r == b'*'
      then (if insert then (put x true v).0 else v)
      else if r == b'%'
      then on_stc
          (λ e.
            if insert
            then x.add_text (x.filename e) e
            else x.clipboard_add (x.path_text e) (x.show_message (x.path_text e) e))
          v
      else if is_empty value
      then on_stc (x.show_message (b'?' ∷ t)) v
      else if not insert
      then on_stc (x.show_message value) v
      else (let w = on_stc (x.add_text value) v in
          if r == b'.' then append_text x (x.get_register b'.' w.around) w else w)

  -- an abbreviation at the end of the text that is inserted already
  unfoldable pub expand_inserted : Vi E → Vi E
  expand_inserted v =
      let at = behind_last (length v.insert_text) v.insert_text in
      let word = drop at v.insert_text in
      elim (x.abbreviation word v.around) [
        | none ↦ v
        | some u ↦ record v {
          insert_text = replace_at at (length word) u v.insert_text;
          around =
              let e = v.around in
              let p = x.current_pos e in
              elim (x.find_text p (x.position_from_line (pos (x.current_line e)) e) word e) [
                | none ↦ e
                | some m ↦
                    x.set_current_pos (p + length u - length word)
                      (x.replace_target m (m + length word) u e)
              ];
        }
      ]

  -- an abbreviation in the token itself, which ends with a char behind the word
  unfoldable pub expand_token : Text → E → Text
  expand_token t e =
      let at = behind_last (if length t == 1 then 1 else length t - 2) t in
      let word = if length t == 1 then [] else take (length t - 1 - at) (drop at t) in
      elim (x.abbreviation word e) [ none ↦ t | some u ↦ replace_at at (length word) u t ]

  unfoldable pub insert_token : Text → Vi E → Vi E
  unfolding expand_inserted expand_token
  insert_token t v =
      if is_empty t
      then v
      else (let ends = contains (last_or t 0) word_ends in
          let w = (if ends && not (is_empty v.insert_text) then expand_inserted v else v) in
          let u = (if ends && is_empty v.insert_text then expand_token t v.around else t) in
          on_stc (λ e. if eq_text u (newline ∷ []) then x.auto_indentation e else e)
            (on_stc (x.add_text u) w))

  unfoldable pub insert_tokens : List Text → Vi E → Vi E
  unfolding insert_token
  insert_tokens [] v = v
  insert_tokens (t ∷ ts) v = insert_tokens ts (insert_token t v)

  unfoldable pub insert_mode_normal : Text → Vi E → Vi E
  unfolding insert_tokens
  insert_mode_normal t v = elim (x.tokens t) [
    | [] ↦ on_stc (x.add_text t) v
    | u ∷ us ↦ if contains 0 t then on_stc (x.add_text t) v else insert_tokens (u ∷ us) v
  ]

  -- the text before the escape
  unfoldable pub add_rest : Text → Vi E → Vi E
  unfolding repeat
  add_rest rest v =
      let e = v.around in
      let whole = concat (replicate v.count rest) in
      record v {
        around =
            if not (is_empty (x.selected_text e))
            then x.replace_selection rest e
            else if not (x.get_overtype e)
            then repeat v.count (x.add_text rest) e
            else x.replace_target (x.current_pos e) (x.current_pos e + length whole) whole e;
      }

  unfoldable pub insert_escape : Text → Vi E → Vi E
  unfolding insert_mode_normal add_rest mode_escape repeat
  insert_escape t v =
      let w =
        (if is_empty v.insert_text
          then v
          else let extra = repeat (v.count - 1) (insert_mode_normal v.insert_text) v in
            on_stc (x.set_register b'.' extra.insert_text) extra) in
      let u = (if ltb 1 (length t) then add_rest (pop_back t) w else w) in
      let r = mode_escape x u in if r.1 then on_stc (x.set_overtype false) r.0 else r.0

  -- The switch on the last char.
  unfoldable pub insert_default : Text → Vi E → Vi E × Bool
  unfolding insert_mode_normal append_text command_reg
  insert_default t v =
      let c = last_or t 0 in
      let w =
        (if contains b'c' v.last_command && is_empty v.insert_text
          then on_stc (x.replace_selection []) v
          else v) in
      if not (is_empty w.insert_text) && last_or w.insert_text 0 == control_r
      then (let s = on_stc (x.replace_selection []) w in
          (
            command_reg (c ∷ []) (
                if not (c == b'.')
                then append_text x t s
                else record s { insert_text = pop_back s.insert_text }),
            false,
          ))
      else if length t == 1 && c == 13
      then (let s = on_stc x.new_line w in
          (if x.autocomp_active s.around then s else append_text x (x.eol s.around) s, true))
      else (let s = (if x.get_overtype w.around then w else insert_mode_normal t w) in
          (if s.dot then s else append_text x t s, true))

  unfoldable pub insert_key : Text → Vi E → Vi E × Bool
  unfolding insert_escape insert_default append_text delete_range
  insert_key t v =
      let c = last_or t 0 in
      let p = x.current_pos v.around in
      if c == 8
      then (on_stc x.delete_back (record v { insert_text = pop_back v.insert_text }), true)
      else if c == control_r
      then (append_text x t v, true)
      else if c == 127
      then ((delete_range x (pos p) (pos (p + 1)) v).0, true)
      else if c == escape_key
      then (insert_escape t v, true)
      else insert_default t v

  unfoldable pub insert_hexmode : Text → Vi E → Vi E × Bool
  unfolding mode_escape
  insert_hexmode t v =
      if last_or t 0 == escape_key
      then (let r = mode_escape x v in
          (if r.1 then on_stc (x.set_overtype false) r.0 else r.0, true))
      else (let r = x.hexmode_insert t v.around in (record v { around = r.0 }, r.1))

  unfoldable pub insert_mode : ℕ → Text → Vi E → Option (Vi E × Bool)
  insert_mode zero t v = none
  insert_mode (suc n) t v =
      if is_empty t
      then some (v, false)
      else if x.is_hexmode v.around
      then some (insert_hexmode t v)
      else if length t == 2 && get_or t 1 0 == 0
      then some (on_stc (x.add_text (take 1 t)) (append_text x (take 1 t) v), true)
      else if is_prefix calc_key t
      then some (command_reg t v, true)
      else if not (contains control_r t)
      then some (insert_key t v)
      else if ltb (length t) 2
      then some (v, false)
      else elim (marker_and_register_expansion (x.source v.around) t) [
        | none ↦ none
        | some u ↦ elim (insert_mode n u v) [ none ↦ none | some r ↦ some (r.0, true) ]
      ]
