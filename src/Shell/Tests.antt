-- ===== src/Shell/Tests.antt =====
-- The shell on a document that is a text and a position, and the laws at a few inputs
-- (src/stc/shell.cpp).
use wx_extension.Prelude.{
  ℕ, ◌+◌, true, false, none, List, [], ◌∷◌, ◌++◌, Text, length, take, drop, if◌then◌else◌, leb, ◌≡◌,
  refl, arith,
}
use wx_extension.Shell.{Doc, Shell, erase_at, insert_char, process_char_default}
use wx_extension.Shell.History.{Key, typed, backspace, press}
use wx_extension.Shell.Laws.Synced.{IsDoc, IsSynced}
use wx_extension.Shell.Laws.Past.{ups, IsAt, ups-IsAt}

-- `sent` is what the parent got.
record Page : Type 0 where
  content : Text
  caret : ℕ
  sent : List Text

-- the caret of the control, which does not go behind the text
abbrev page_pos : Page → ℕ
page_pos d = if leb d.caret (length d.content) then d.caret else length d.content

abbrev page : Doc Page
page = record {
  text = λ d. d.content;
  pos = page_pos;
  eol = 10 ∷ [];
  append = λ t d. record d { content = d.content ++ t };
  document_end = λ d. record d { caret = length d.content };
  replace_range = λ a b t d. record d { content = take a d.content ++ (t ++ drop b d.content) };
  insert_at_pos =
      λ c d. record d { content = insert_char (page_pos d) c d.content; caret = page_pos d + 1 };
  delete_at = λ i d. record d { content = erase_at i d.content; caret = i };
  empty_undo = λ d. d;
  can_undo = λ d. false;
  undo = λ d. d;
  can_paste = λ d. false;
  paste = λ d. d;
  clipboard = λ d. [];
  autocomp_active = λ d. false;
  autocomp_current = λ d. none;
  autocomp_show = λ v d. d;
  autocomp_cancel = λ d. d;
  complete = λ t d. none;
  filename = λ t. t;
  trim = λ t. t;
  is_running = λ d. false;
  send = λ t d. record d { sent = d.sent ++ t ∷ [] };
  write = λ t d. d;
}

page-IsDoc : IsDoc page
page-IsDoc = record {
  pos_bound = λ d. ground arith;
  append_lem = λ t d. refl;
  end_text = λ d. refl;
  end_pos = λ d. ground arith;
  undo_text = λ d. refl;
  undo_pos = λ d. refl;
  replace_lem = λ a b t d h k. refl;
  insert_lem = λ c d. refl;
  delete_lem = λ i d. refl;
}

-- the prompt >, and two commands in the history
abbrev ls : Text
ls = b'l' ∷ b's' ∷ []

abbrev make : Text
make = b'm' ∷ b'a' ∷ b'k' ∷ b'e' ∷ []

abbrev at_prompt : Shell Page
at_prompt = record {
  doc = record { content = b'>' ∷ []; caret = 1; sent = [] };
  command = [];
  commands = ls ∷ make ∷ [];
  iterator = 2;
  start = 1;
  enabled = true;
  prompt_text = b'>' ∷ [];
  command_end = 10 ∷ [];
  list = [];
}

at_prompt-IsSynced : IsSynced page at_prompt
at_prompt-IsSynced = record { start_bound = omega arith; command_shown = refl }

abbrev some_keys : List Key
some_keys = typed true b'l' ∷ typed false b'X' ∷ backspace ∷ typed true b's' ∷ []

-- A shift and a letter where the caret is before the prompt: the letter comes last in the command,
-- and stands before the prompt in the text.
abbrev before_prompt : Shell Page
before_prompt = record at_prompt { doc = record { content = b'>' ∷ []; caret = 0; sent = [] } }

shifted_before :
    ((press page (typed false b'X') before_prompt).command ≡ b'X' ∷ [])
    × ((press page (typed false b'X') before_prompt).doc.content ≡ b'X' ∷ b'>' ∷ [])
unfolding press process_char_default
shifted_before = (refl, refl)

ups-IsAt_example : IsAt page (ups page 2 at_prompt) (ls ∷ make ∷ []) 0
ups-IsAt_example =
    ups-IsAt page 1 0 at_prompt page-IsDoc at_prompt-IsSynced refl (omega arith) refl (λ j. refl)
