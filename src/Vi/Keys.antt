-- ===== src/Vi/Keys.antt =====
-- Keys that become commands (src/vi/vi.cpp: convert_key_event, on_char, on_key_down). A command is
-- gathered in `typed`, and tried after each key. The result tells whether the event goes on; `none`
-- is that of the command.
use wx_extension.Prelude.{
  ℕ, ◌%◌, Bool, true, false, not, ◌&&◌, ◌||◌, Option, none, some, [], ◌∷◌, ◌++◌, Text, length, drop,
  if◌then◌else◌, ◌==◌, ltb,
}
use wx_extension.Core.Text.{is_empty, contains}
use wx_extension.ViMode.Transition as Mode
use wx_extension.Vi.Component.{Stc, Vi, on_stc}
use wx_extension.Vi.Count.{escape_key}
use wx_extension.Vi.Motions.{first_or}
use wx_extension.Vi.Insert.{insert_mode, pop_back}
use wx_extension.Vi.Parse.{command}

-- A key event: the key code, the unicode key (0 for WXK_NONE), and the modifiers.
pub record KeyEvent : Type 0 where
  pub code : ℕ
  pub unicode : ℕ
  pub raw_control : Bool
  pub control : Bool
  pub alt : Bool
  pub any_modifier : Bool

-- WXK_BACK, WXK_TAB and WXK_RETURN are 8, 9 and 13; the arrows are 314 to 317, a page up and down
-- 366 and 367, WXK_NUMPAD_ENTER 370, WXK_DELETE 127.
unfoldable pub convert_key_event : KeyEvent → Bool → ℕ
convert_key_event k insert =
    let c = k.code in
    if c == 8
    then 8
    else if c == 13 && not insert
    then b'j'
    else if k.raw_control
    then c % 256
    else if not (k.unicode % 256 == 0)
    then k.unicode % 256
    else if c == 314
    then b'h'
    else if c == 317 || c == 370
    then b'j'
    else if c == 315
    then b'k'
    else if c == 316
    then b'l'
    else if c == 127
    then b'x'
    else if c == 366
    then 2
    else if c == 367
    then 6
    else c % 256

-- The keys that on_key_down makes part of a command.
unfoldable pub is_command_key : KeyEvent → Bool → Bool → Bool
is_command_key k insert visual =
    not k.any_modifier
    && (contains k.code (escape_key ∷ 8 ∷ 13 ∷ 370 ∷ [])
        || (not visual && k.code == 9
            || (not insert && contains k.code (314 ∷ 127 ∷ 317 ∷ 315 ∷ 316 ∷ 366 ∷ 367 ∷ []))))

module _ {E : Type 0} (x : Stc E) where
  abbrev pub Keyed : Type 0
  Keyed = Option (Vi E × Bool)

  -- m_command.append_exec(c): what vi::command gives for the text that is gathered
  unfoldable pub append_exec : ℕ → ℕ → Vi E → Keyed
  unfolding command
  append_exec n c v = let w = record v { typed = v.typed ++ c ∷ [] } in command x n w.typed w

  -- The text is done once the command succeeds.
  abbrev clear_if_done : (Vi E → Vi E) → Bool → Keyed → Keyed
  clear_if_done f on r = elim r [
    | none ↦ none
    | some s ↦ if s.1 then some (f (record s.0 { typed = [] }), false) else some (s.0, on)
  ]

  -- `other_selection`: SelectionIsRectangle, or a thin selection
  unfoldable pub on_char : ℕ → Bool → KeyEvent → Vi E → Keyed
  unfolding append_exec insert_mode convert_key_event
  on_char n other_selection k v =
      if not (x.is_active v.around)
      then some (v, true)
      else if Mode.is_insert v.fsm
      then (if other_selection
          then some (v, true)
          else (let w = record v { typed = v.typed ++ convert_key_event k true ∷ [] } in
              elim (insert_mode x n w.typed w) [
                | none ↦ none
                | some r ↦
                    let done = r.1 || (x.is_hexmode r.0.around && ltb 2 (length r.0.typed)) in
                    some (
                      if done then record r.0 { typed = [] } else r.0,
                      r.1 && x.get_overtype r.0.around,
                    )
              ]))
      else if k.alt || k.unicode == 0
      then some (v, true)
      else if not (is_empty v.typed) && first_or v.typed 0 == b'@' && k.code == 8
      then some (record v { typed = pop_back v.typed }, false)
      else clear_if_done (λ w. w) false (append_exec n (k.unicode % 256) v)

  -- A key that is mapped to a command, for a key map.
  abbrev mapped_key : ℕ → Option Text → Vi E → Keyed
  mapped_key n o v = elim o [
    | none ↦ some (v, true)
    | some t ↦ elim (command x n t v) [ none ↦ none | some r ↦ some (r.0, false) ]
  ]

  -- the two key maps, and what is shown of a macro that is named
  unfoldable pub on_key_down :
      ℕ → (ℕ → E → Option Text) → (ℕ → E → Option Text) → (Text → E → E) → KeyEvent → Vi E → Keyed
  unfolding append_exec command convert_key_event is_command_key
  on_key_down n control_map alt_map show k v =
      let insert = Mode.is_insert v.fsm in
      let typed = pop_back v.typed in
      if not (x.is_active v.around) || x.autocomp_active v.around
      then some (v, true)
      else if not (is_empty v.typed) && first_or v.typed 0 == b'@'
      then (if k.code == 8
          then some (on_stc (show (drop 1 typed)) (record v { typed = typed }), true)
          else if k.code == escape_key
          then some (on_stc (show []) (record v { typed = []; insert_command = [] }), true)
          else some (v, true))
      else if is_command_key k insert (Mode.is_visual v.fsm)
      then (if k.code == 8
          then some (record v { insert_text = pop_back v.insert_text }, true)
          else clear_if_done
              (λ w. if Mode.is_insert w.fsm then w else record w { insert_command = [] }) true
              (append_exec n (convert_key_event k insert) v))
      else if k.control && not (k.code == 0)
      then mapped_key n (control_map k.code v.around) v
      else if k.alt && not (k.code == 0)
      then elim (if Mode.is_command v.fsm
          then some (v, true)
          else command x n (escape_key ∷ []) v) [
            | none ↦ none
            | some r ↦ mapped_key n (alt_map k.code r.0.around) r.0
          ]
      else some (v, true)
