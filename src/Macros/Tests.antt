-- ===== src/Macros/Tests.antt =====
-- The macros at a few inputs (src/vi/macros.cpp, src/vi/macro-fsm.cpp, src/vi/variable.cpp,
-- src/vi/macro-mode.cpp).
use wx_extension.Prelude.{
  arith, ◌≡◌, [], ◌∷◌, ◌++◌, refl, ◌==◌, if◌then◌else◌, Bool, true, false, Option, none, some, List,
  Text, eq_text, space, newline,
}
use wx_extension.Macros.Registers.{Registers}
use wx_extension.Macros.Variable.{Variable, input_save, template}
use wx_extension.Macros.Store.{Xml, Store, commands_or_none}
use wx_extension.Macros.Fsm.{Machine, record_text, Undo, lower_name, playback, is_cleared}
use wx_extension.Macros.Fsm.Recording.{kept, kept_before, session, session-commands}
use wx_extension.Macros.Fsm.Playback.{times, playback-session}
use wx_extension.Macros.Mode.{Surroundings}
use wx_extension.Macros.Template.{Expander, expand_template}
use wx_extension.Macros.Template.Laws.{
  Piece, literal, variable, source, meaning, expand_template-meaning,
}

abbrev filled : Registers
filled = record { macros = λ k. if k == b'a' then (b'x' ∷ []) ∷ [] else []; clipboard = [] }

-- A document without nodes, that is never saved.
abbrev no_xml : Xml Bool
no_xml = record {
  remove_node = λ e n d. some d;
  append_node = λ e n ts d. d;
  save_file = λ d. true;
}

abbrev empty_store : Store Bool
empty_store = record {
  macros = [];
  variables = [];
  doc = true;
  is_modified = false;
  is_loaded = false;
  file_exists = false;
}

abbrev idle : Machine Bool
idle = record { store = empty_store; macro = []; is_playback = false; is_recording = false }

abbrev typed_commands : List Text
typed_commands = (b'd' ∷ b'd' ∷ []) ∷ (space ∷ []) ∷ [] ∷ (b'p' ∷ []) ∷ []

abbrev name : Text
name = b'a' ∷ []

session-commands_example :
    ((session no_xml name typed_commands idle).is_recording ≡ false)
    × ((session no_xml name typed_commands idle).is_playback ≡ false)
    × (commands_or_none name (session no_xml name typed_commands idle).store ≡ (
        if eq_text name (lower_name name)
        then kept_before name empty_store ++ kept typed_commands
        else commands_or_none name empty_store))
session-commands_example = session-commands no_xml name name typed_commands idle refl refl refl

-- A command that gives itself to macros::record, and writes itself into the editor.
abbrev write_command : Text → Machine Bool × Text → (Machine Bool × Text) × Bool
write_command c (m, e) = (((record_text c true m).0, e ++ c), true)

-- Where the machine does not record, it only writes.
write_command-plain :
    (c : Text) (m : Machine Bool) (e : Text)
    → m.is_recording ≡ false
    → m.is_playback ≡ true
    → true ≡ true
    → write_command c (m, e) ≡ ((m, e ++ c), true)
unfolding record_text
write_command-plain c m e i q h = ground (arith, i)

abbrev write_text : Text → Text → Text
write_text c e = e ++ c

abbrev no_undo : Undo Text
no_undo = record { begin_undo = λ e. e; end_undo = λ e. e }

playback-session_example :
    let r =
      playback no_undo write_command
        (lower_name name)
        2
        (session no_xml name typed_commands idle, []) in
    (r.0.1 ≡ times write_text 2 (kept_before name empty_store ++ kept typed_commands) [])
    × (r.1 ≡ true)
    × (r.0.0.is_recording ≡ false)
    × (r.0.0.is_playback ≡ false)
unfolding is_cleared kept
playback-session_example =
    playback-session write_command (λ c. true) write_text write_command-plain no_xml no_undo name
      typed_commands 1 idle [] refl refl refl refl

abbrev date : Variable
date = record {
  name = b'd' ∷ [];
  value = b'1' ∷ [];
  format = [];
  prefix = b'x' ∷ [];
  type = input_save;
  ask_for_input = false;
}

-- Each variable has its name as its value, but `e`, that has none.
abbrev names : Text → Option Text
names n = if eq_text n (b'e' ∷ []) then none else some n

abbrev by_name : Expander Bool
by_name = record {
  expand = λ n s. (names n, s);
  set_argument = λ t s. s;
  set_ask_for_input = λ s. s;
}

abbrev letter : Variable
letter = record date { type = template }

abbrev pieces : List Piece
pieces = literal (b'o' ∷ newline ∷ []) ∷ variable (b'n' ∷ []) ∷ variable (b'e' ∷ []) ∷ []

expand_template-meaning_example :
    let r = expand_template by_name letter (some (source pieces)) [] (true, []) in
    (r.0 ≡ ((meaning names letter.name pieces).0, (meaning names letter.name pieces).1))
    × (r.1.1 ≡ letter.name)
expand_template-meaning_example =
    expand_template-meaning by_name names letter pieces [] true [] (λ n s. refl) refl refl refl refl

abbrev surroundings : Surroundings Bool Text
surroundings = record {
  trim_copy = λ t. t;
  sort = λ l. l;
  entry_dialog = λ t. none;
  choice_dialog = λ l t. none;
  register_of = λ t. some name;
  variable_of = λ t. none;
  undo = no_undo;
  command = write_command;
  expand_variable = λ t z. z;
  restore = λ z. z;
}
