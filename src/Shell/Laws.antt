-- ===== src/Shell/Laws.antt =====
-- The command of the shell is the text behind the prompt (src/stc/shell.cpp).
mod Texts
pub mod Synced
pub mod Past
use wx_extension.Prelude.{
  ◌+◌, Bool, true, false, ◌&&◌, ◌||◌, List, [], ◌∷◌, Text, length, leb, ◌≡◌, refl, ap, sym, ◌∙◌,
  arith,
}
use wx_extension.Shell.{Doc, Shell, append_text, append_if, prompt, end_prompt}
use wx_extension.Shell.History.{Key, up, down, typed, backspace, delete, press}
use wx_extension.Shell.Laws.Synced.{IsDoc, IsSynced}
use wx_extension.Shell.Laws.Texts.{drop_all}

module _ {D : Type 0} (x : Doc D) where
  -- Keys that edit the command: a char with a modifier does so only where the caret is not before
  -- the command.
  abbrev pub is_edit : Key → Shell D → Bool
  is_edit (typed bare c) s = bare || leb s.start (x.pos s.doc)
  is_edit backspace s = true
  is_edit delete s = true
  is_edit up s = false
  is_edit down s = false

  module _ (l : IsDoc x) where
    unfoldable pub presses : List Key → Shell D → Shell D
    presses [] s = s
    presses (k ∷ ks) s = presses ks (press x k s)

    unfoldable pub all_edits : List Key → Shell D → Bool
    all_edits [] s = true
    all_edits (k ∷ ks) s = is_edit k s && all_edits ks (press x k s)

    end_prompt-IsSynced :
        (clean : Bool) (s : Shell D) → s.command ≡ [] → IsSynced x (end_prompt x clean s)
    unfolding end_prompt
    end_prompt-IsSynced true s e =
        let at_end : x.pos (x.empty_undo (x.document_end s.doc))
            ≡ length (x.text (x.empty_undo (x.document_end s.doc))) =
          l.undo_pos (x.document_end s.doc)
          ∙ (l.end_pos s.doc
              ∙ ap length (sym (l.undo_text (x.document_end s.doc) ∙ l.end_text s.doc))) in
        record {
          start_bound = omega (arith, at_end);
          command_shown =
              e ∙ rw at_end (sym (drop_all (x.text (x.empty_undo (x.document_end s.doc)))));
        }
    end_prompt-IsSynced false s e =
        let at_end : x.pos (x.document_end s.doc) ≡ length (x.text (x.document_end s.doc)) =
          l.end_pos s.doc ∙ ap length (sym (l.end_text s.doc)) in
        record {
          start_bound = omega (arith, at_end);
          command_shown = e ∙ rw at_end (sym (drop_all (x.text (x.document_end s.doc))));
        }

    append_if-command :
        (b : Bool) (t : Text) (s : Shell D) → (append_if x b t s).command ≡ s.command
    unfolding append_if append_text
    append_if-command true t s = refl
    append_if-command false t s = refl

    -- A prompt begins an empty command.
    pub prompt-IsSynced :
        (t : Text) (add_eol : Bool) (s : Shell D)
        → s.enabled ≡ true
        → s.command ≡ []
        → IsSynced x (prompt x t add_eol s).0
    unfolding prompt
    prompt-IsSynced t add_eol s h e = rw h (
        end_prompt-IsSynced _ _ (
          append_if-command _ s.prompt_text _
          ∙ (append_if-command add_eol x.eol _ ∙ (append_if-command _ t _ ∙ e))))
