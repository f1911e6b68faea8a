-- ===== src/Shell/Laws/Synced.antt =====
-- That a key keeps the command of the shell what is shown (src/stc/shell.cpp).
use wx_extension.Prelude.{
  ℕ, ◌+◌, ◌-◌, ◌≤◌, ◌++◌, Text, length, take, drop, length-drop, ◌≡◌, ap, sym, ◌∙◌, arith,
}
use wx_extension.Shell.{
  Doc, Shell, on_doc, erase_at, insert_char, process_char_default, process_delete,
}
use wx_extension.Shell.Laws.Texts.{
  insert_behind, erase_behind, drop-insert_char, drop-erase_at, length-insert_char,
  le-length-erase_at,
}

-- What is relied on of the styled text control.
pub record IsDoc {D : Type 0} (x : Doc D) : Type 0 where
  pub pos_bound : (d : D) → x.pos d ≤ length (x.text d)
  pub append_lem : (t : Text) (d : D) → x.text (x.append t d) ≡ x.text d ++ t
  pub end_text : (d : D) → x.text (x.document_end d) ≡ x.text d
  pub end_pos : (d : D) → x.pos (x.document_end d) ≡ length (x.text d)
  pub undo_text : (d : D) → x.text (x.empty_undo d) ≡ x.text d
  pub undo_pos : (d : D) → x.pos (x.empty_undo d) ≡ x.pos d
  pub replace_lem :
      (a b : ℕ) (t : Text) (d : D)
      → a ≤ b
      → b ≤ length (x.text d)
      → x.text (x.replace_range a b t d) ≡ take a (x.text d) ++ (t ++ drop b (x.text d))
  pub insert_lem :
      (c : ℕ) (d : D) → x.text (x.insert_at_pos c d) ≡ insert_char (x.pos d) c (x.text d)
  pub delete_lem : (i : ℕ) (d : D) → x.text (x.delete_at i d) ≡ erase_at i (x.text d)

module _ {D : Type 0} (x : Doc D) where
  -- The text behind the prompt.
  abbrev pub shown : Shell D → Text
  shown s = drop s.start (x.text s.doc)

  -- The command is what is shown behind the prompt.
  pub record IsSynced (s : Shell D) : Type 0 where
    pub start_bound : s.start ≤ length (x.text s.doc)
    pub command_shown : s.command ≡ shown s

  module _ (l : IsDoc x) where
    -- the command behind a char at the position
    process_char_default-command :
        (c : ℕ) (s : Shell D)
        → s.start ≤ x.pos s.doc
        → length s.command ≡ length (x.text s.doc) - s.start
        → process_char_default x c s
          ≡ record s { command = insert_char (x.pos s.doc - s.start) c s.command }
    unfolding process_char_default
    process_char_default-command c s h k =
        ground (arith, insert_behind (x.pos s.doc - s.start) c s.command, l.pos_bound s.doc)

    length-command : (s : Shell D) → IsSynced s → length s.command ≡ length (x.text s.doc) - s.start
    length-command s v = ap length v.command_shown ∙ length-drop s.start (x.text s.doc)

    pub insert-IsSynced :
        (c : ℕ) (s : Shell D)
        → IsSynced s
        → s.start ≤ x.pos s.doc
        → IsSynced (on_doc x (x.insert_at_pos c) (process_char_default x c s))
    insert-IsSynced c s v h = rw (process_char_default-command c s h (length-command s v)) (record {
      start_bound =
          rw (l.insert_lem c s.doc)
            (omega (arith, length-insert_char (x.pos s.doc) c (x.text s.doc), v.start_bound));
      command_shown = rw (l.insert_lem c s.doc) (
          ap (insert_char (x.pos s.doc - s.start) c) v.command_shown
          ∙ sym (drop-insert_char s.start (x.pos s.doc) c (x.text s.doc) h (l.pos_bound s.doc)));
    })

    process_delete-command :
        (o : ℕ) (s : Shell D)
        → s.start + o ≤ x.pos s.doc
        → process_delete x o s
          ≡ record s { command = erase_at (x.pos s.doc - (s.start + o)) s.command }
    unfolding process_delete
    process_delete-command o s h =
        ground (arith, erase_behind (x.pos s.doc - (s.start + o)) s.command)

    pub delete-IsSynced :
        (o : ℕ) (s : Shell D)
        → IsSynced s
        → s.start + o ≤ x.pos s.doc
        → IsSynced (on_doc x (x.delete_at (x.pos s.doc - o)) (process_delete x o s))
    delete-IsSynced o s v h =
        let p = x.pos s.doc - o in
        let below : p ≤ length (x.text s.doc) = omega (arith, l.pos_bound s.doc) in
        let same : x.pos s.doc - (s.start + o) ≡ p - s.start = omega arith in
        rw (process_delete-command o s h) (record {
          start_bound =
              rw (l.delete_lem p s.doc) (omega (arith, le-length-erase_at p (x.text s.doc) below));
          command_shown = rw (l.delete_lem p s.doc) (
              rw same (
                ap (erase_at (p - s.start)) v.command_shown
                ∙ sym (drop-erase_at s.start p (x.text s.doc) (omega arith) below)));
        })

    pub document_end-IsSynced : (s : Shell D) → IsSynced s → IsSynced (on_doc x x.document_end s)
    document_end-IsSynced s v = record {
      start_bound = rw (l.end_text s.doc) v.start_bound;
      command_shown = rw (l.end_text s.doc) v.command_shown;
    }
