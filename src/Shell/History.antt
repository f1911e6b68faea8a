-- ===== src/Shell/History.antt =====
-- Keys in the shell, and commands from the history (src/stc/shell.cpp: set_command_from_history,
-- process_char, the key handler of the constructor).
use wx_extension.Prelude.{
  ℕ, zero, suc, ◌-◌, Bool, true, false, not, ◌&&◌, ◌||◌, Option, none, some, List, [], ◌∷◌, ◌++◌,
  Text, length, take, drop, get_elem?, eq_text, if◌then◌else◌, ◌==◌, ltb, leb, ℤ, pos, negsuc,
  sub_ℕ,
}
use wx_extension.Core.Text.{is_empty, isspace}
use wx_extension.Prelude.{is_prefix}
use wx_extension.Vi.Count.{split_digits, value_from}
use wx_extension.Shell.{
  Doc, Shell, on_doc, append_text, prompt, keep_command, send_command, show_history,
  process_char_default, process_delete, expand, show_command,
}

abbrev skip_space : Text → Text
skip_space [] = []
skip_space (c ∷ t) = if isspace c then skip_space t else c ∷ t

-- The value of the digits at the start, if there are any, and if it is below the bound.
abbrev digits_value : ℕ → Text → Option ℕ
digits_value bound t =
    let r = (split_digits t).0 in
    if not (is_empty r) && ltb (value_from 0 r) bound then some (value_from 0 r) else none

-- std::stoi: `none` for an exception
unfoldable pub stoi : Text → Option ℤ
unfolding split_digits value_from
stoi t = elim (skip_space t) [
  | [] ↦ none
  | c ∷ u ↦
      if c == b'-'
      then elim (digits_value 2147483649 u) [ none ↦ none | some n ↦ some (sub_ℕ 0 n) ]
      else elim (digits_value 2147483648 (if c == b'+' then u else c ∷ u)) [
        | none ↦ none
        | some n ↦ some (pos n)
      ]
]

-- the command of a number, counted from 1
abbrev pub numbered : ℤ → List Text → Option Text
numbered (pos zero) cs = none
numbered (pos (suc n)) cs = get_elem? cs n
numbered (negsuc n) cs = none

-- The last command that starts with a text.
unfoldable pub last_with_prefix : Text → List Text → Option Text
last_with_prefix t [] = none
last_with_prefix t (c ∷ cs) = elim (last_with_prefix t cs) [
  | some d ↦ some d
  | none ↦ if is_prefix t c then some c else none
]

abbrev not_found : Text
not_found =
    b':' ∷ 32 ∷ b'e' ∷ b'v' ∷ b'e' ∷ b'n' ∷ b't' ∷ 32 ∷ b'n' ∷ b'o' ∷ b't' ∷ 32 ∷ b'f' ∷ b'o' ∷ b'u'
    ∷ b'n' ∷ b'd' ∷ []

abbrev pub history_word : Text
history_word = b'h' ∷ b'i' ∷ b's' ∷ b't' ∷ b'o' ∷ b'r' ∷ b'y' ∷ []

abbrev ends_with : Text → Text → Bool
ends_with e t = leb (length e) (length t) && eq_text (drop (length t - length e) t) e

-- A key that is typed in a shell that echoes, where vi mode is off: a printable char, with whether
-- no modifier (such as shift) is down, or one of backspace, delete, up and down; with what the
-- component does behind it. Home, escape and the keys that paste or stop a process are left out;
-- return and tab are process_char.
pub data Key : Type 0 where
  typed : Bool → ℕ → Key
  backspace delete up down : Key

module _ {D : Type 0} (x : Doc D) where
  abbrev pub is_line_shell : Shell D → Bool
  is_line_shell s = eq_text s.command_end x.eol

  -- the text that is looked for, without the end of a command
  abbrev pub checked : Text → Shell D → Text
  checked t s =
      if is_line_shell s
      then t
      else if ltb (length t) (length s.command_end)
      then t
      else take (length t - length s.command_end) t

  unfoldable pub from_history : Text → Shell D → Option Text
  unfolding last_with_prefix
  from_history t s = elim (stoi t) [
    | some n ↦ numbered n s.commands
    | none ↦ last_with_prefix (checked t s) s.commands
  ]

  unfoldable pub set_command_from_history : Text → Shell D → Shell D × Bool
  unfolding from_history
  set_command_from_history t s = elim (from_history t s) [
    | some c ↦ (record s { command = c }, true)
    | none ↦ ((prompt x (x.eol ++ (t ++ not_found)) true s).0, false)
  ]

  -- a command that is complete
  unfoldable pub run_command : Shell D → Shell D
  unfolding keep_command show_history prompt send_command set_command_from_history append_text
  run_command s =
      let e = on_doc x x.empty_undo s in
      if eq_text s.command (history_word ++ (if is_line_shell s then [] else s.command_end))
      then (prompt x [] true (show_history x (keep_command x e))).0
      else if is_prefix (b'!' ∷ []) s.command
      then (let r = set_command_from_history (drop 1 s.command) e in
          if r.1
          then send_command x (keep_command x (append_text x (x.eol ++ r.0.command) r.0))
          else r.0)
      else send_command x (keep_command x e)

  abbrev pub at_history_end : Shell D → Shell D
  at_history_end s = record s { iterator = length s.commands }

  -- process_char(WXK_RETURN)
  unfoldable pub process_return : Shell D → Shell D × Bool
  unfolding expand send_command run_command process_char_default
  process_return s =
      let r : Shell D × Bool =
        if x.autocomp_active s.doc
        then (if length s.list == 0 then (s, true) else (expand x s, false))
        else if is_empty s.command
        then (send_command x s, false)
        else if is_line_shell s || ends_with s.command_end s.command
        then (record (run_command s) { command = [] }, false)
        else (process_char_default x 13 s, true) in
      (at_history_end r.0, r.1)

  -- process_char(key); WXK_BACK, WXK_TAB, WXK_RETURN and WXK_DELETE are 8, 9, 13 and 127
  unfoldable pub process_char : ℕ → Shell D → Shell D × Bool
  unfolding process_return process_delete process_char_default expand
  process_char key s =
      if key == 13
      then process_return s
      else if key == 8
      then (process_delete x 1 s, false)
      else if key == 127
      then (process_delete x 0 s, false)
      else if key == 9
      then (expand x s, false)
      else (process_char_default x key s, true)

  unfoldable pub press : Key → Shell D → Shell D
  unfolding process_char process_delete process_char_default show_command
  press (typed bare c) s =
      let e = if bare && ltb (x.pos s.doc) s.start then on_doc x x.document_end s else s in
      on_doc x (x.insert_at_pos c) (process_char_default x c (at_history_end e))
  press backspace s =
      if leb (x.pos s.doc) s.start
      then s
      else on_doc x (x.delete_at (x.pos s.doc - 1)) (process_delete x 1 s)
  press delete s =
      if leb (x.pos s.doc) s.start
      then s
      else on_doc x (x.delete_at (x.pos s.doc)) (process_delete x 0 s)
  press up s =
      if x.pos s.doc == length (x.text s.doc) && not (x.autocomp_active s.doc)
      then show_command x true s
      else s
  press down s =
      if x.pos s.doc == length (x.text s.doc) && not (x.autocomp_active s.doc)
      then show_command x false s
      else s
