-- ===== src/Shell.antt =====
-- The shell (src/stc/shell.cpp): a text whose end, behind the prompt, is the command that is
-- edited, and the history of the commands. The styled text control is a type `D`; what the shell
-- calls of it, of the process and of the file system is `Doc`, and what is relied on is
-- `Laws.IsDoc`. The event handlers of the constructor are key_down and char_added; the mouse is
-- left out.
pub mod Laws
pub mod History
mod Tests
use wx_extension.Prelude.{
  ℕ, suc, ◌+◌, ◌-◌, Bool, true, false, not, ◌&&◌, Option, none, some, List, [], ◌∷◌, ◌++◌, Text,
  length, take, drop, get_elem?, eq_text, if◌then◌else◌, ltb, leb,
}
use wx_extension.Core.Text.{is_empty, after}
use wx_extension.Ex.Expansion.{to_text}

-- insert_at_pos: a char is typed. complete: auto_complete_filename, with the expansion and the
-- list. filename: that of a path. trim: boost's. send: the event for the parent, or the process,
-- whichever there is.
pub record Doc (D : Type 0) : Type 0 where
  pub text : D → Text
  pub pos : D → ℕ
  pub eol : Text
  pub append : Text → D → D
  pub document_end : D → D
  pub replace_range : ℕ → ℕ → Text → D → D
  pub insert_at_pos : ℕ → D → D
  pub delete_at : ℕ → D → D
  pub empty_undo : D → D
  pub can_undo : D → Bool
  pub undo : D → D
  pub can_paste : D → Bool
  pub paste : D → D
  pub clipboard : D → Text
  pub autocomp_active : D → Bool
  pub autocomp_current : D → Option ℕ
  pub autocomp_show : List Text → D → D
  pub autocomp_cancel : D → D
  pub complete : Text → D → Option (Text × List Text)
  pub filename : Text → Text
  pub trim : Text → Text
  pub is_running : D → Bool
  pub send : Text → D → D
  pub write : Text → D → D

-- m_commands_iterator is the number of commands before it.
pub record Shell (D : Type 0) : Type 0 where
  pub doc : D
  pub command : Text
  pub commands : List Text
  pub iterator : ℕ
  pub start : ℕ
  pub enabled : Bool
  pub prompt_text : Text
  pub command_end : Text
  pub list : List Text

-- t.erase(i, 1) and t.insert(i, 1, c), for a place in the text
abbrev pub erase_at : ℕ → Text → Text
erase_at i t = take i t ++ drop 1 (drop i t)

abbrev pub insert_char : ℕ → ℕ → Text → Text
insert_char i c t = take i t ++ c ∷ drop i t

module _ {D : Type 0} (x : Doc D) where
  abbrev pub on_doc : (D → D) → Shell D → Shell D
  on_doc f s = record s { doc = f s.doc }

  unfoldable pub append_text : Text → Shell D → Shell D
  append_text t s =
      let d = x.empty_undo (x.append t s.doc) in
      record s {
        doc = if leb (length (x.text s.doc)) (x.pos s.doc) then x.document_end d else d;
        start = length (x.text (x.append t s.doc));
      }

  -- the command starts at the end, and `clean` empties the undo buffer
  unfoldable pub end_prompt : Bool → Shell D → Shell D
  end_prompt clean s =
      let d = x.document_end s.doc in
      let e = if clean then x.empty_undo d else d in record s { doc = e; start = x.pos e }

  unfoldable pub append_if : Bool → Text → Shell D → Shell D
  append_if b t s = if b then append_text t s else s

  unfoldable pub prompt : Text → Bool → Shell D → Shell D × Bool
  prompt t add_eol s = if not s.enabled then (s, false) else (
    end_prompt (is_empty t && (not add_eol && is_empty s.prompt_text)) (
        append_if (not (is_empty s.prompt_text)) s.prompt_text
          (append_if add_eol x.eol (append_if (not (is_empty t)) t s))),
    true,
  )

  unfoldable pub keep_command : Shell D → Shell D
  keep_command s =
      let c = if eq_text s.command_end x.eol then s.command else x.trim s.command in
      record s { command = c; commands = s.commands ++ c ∷ [] }

  unfoldable pub send_command : Shell D → Shell D
  unfolding append_text
  send_command s =
      if x.is_running s.doc
      then on_doc (x.write (if is_empty s.command then 10 ∷ [] else s.command))
          (append_text x.eol s)
      else on_doc (x.send s.command) s

  unfoldable pub show_from : ℕ → List Text → Shell D → Shell D
  unfolding append_text
  show_from n [] s = s
  show_from n (c ∷ cs) s = show_from (suc n) cs (append_text ((10 ∷ to_text n) ++ 32 ∷ c) s)

  unfoldable pub show_history : Shell D → Shell D
  unfolding show_from
  show_history s = show_from 1 s.commands s

  -- the char at the position, which the component inserts afterwards
  unfoldable pub process_char_default : ℕ → Shell D → Shell D
  process_char_default key s =
      let p = x.pos s.doc in
      record s {
        command =
            if ltb p (length (x.text s.doc))
              && leb s.start p
              && ltb (p - s.start) (length s.command)
            then insert_char (p - s.start) key s.command
            else s.command ++ key ∷ [];
      }

  -- the char at the position, or the one before it, which the component deletes afterwards
  unfoldable pub process_delete : ℕ → Shell D → Shell D
  process_delete offset s =
      let p = x.pos s.doc in
      if leb (s.start + offset) p && ltb (p - (s.start + offset)) (length s.command)
      then record s { command = erase_at (p - (s.start + offset)) s.command }
      else s

  unfoldable pub add_expansion : Text → Shell D → Shell D
  add_expansion t s =
      if is_empty t
      then s
      else record s { command = s.command ++ t; doc = x.document_end (x.append t s.doc) }

  unfoldable pub expand : Shell D → Shell D
  unfolding add_expansion
  expand s =
      let prefix = x.filename (after s.command 32 false) in
      if x.autocomp_active s.doc
      then (let chosen : Option Text = elim (x.autocomp_current s.doc) [
        | none ↦ none
        | some i ↦ get_elem? s.list i
      ] in
          elim chosen [
            | none ↦ on_doc x.autocomp_cancel s
            | some t ↦ add_expansion (drop (length prefix) t) (on_doc x.autocomp_cancel s)
          ])
      else elim (x.complete s.command s.doc) [
        | none ↦ s
        | some (e, v) ↦
            if ltb 1 (length v)
            then record s { list = v; doc = x.autocomp_show v s.doc }
            else add_expansion e s
      ]

  unfoldable pub show_command : Bool → Shell D → Shell D
  show_command up s =
      let i =
        if up
        then s.iterator - 1
        else if ltb s.iterator (length s.commands)
        then s.iterator + 1
        else s.iterator in
      elim (get_elem? s.commands i) [
        | some c ↦ record s {
          iterator = i;
          command = c;
          doc = x.document_end (x.replace_range s.start (length (x.text s.doc)) c s.doc);
        }
        | none ↦ record s {
          iterator = i;
          command = [];
          doc = x.document_end (if x.can_undo s.doc then x.undo s.doc else s.doc);
        }
      ]

  unfoldable pub paste : Shell D → Shell D
  paste s =
      if not (x.can_paste s.doc)
      then s
      else (let d = x.paste (if ltb (x.pos s.doc) s.start then x.document_end s.doc else s.doc) in
          record s { doc = d; command = s.command ++ x.clipboard d })
