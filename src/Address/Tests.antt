-- ===== src/Address/Tests.antt =====
-- Addresses and ranges at a few inputs (src/vi/address.cpp, src/vi/addressrange.cpp).
use wx_extension.Prelude.{
  concat-append, if◌then◌else◌, ◌++◌, pos_part, take, drop, concat, ℕ, suc, ◌≤◌, Bool, true, false,
  none, some, List, [], ◌∷◌, Text, ◌≡◌, refl, arith, pos, ◌≤ℤ◌, eq_text,
}
use wx_extension.Macros.Registers.{Registers}
use wx_extension.Core.Text.{is_empty}
use wx_extension.Address.Line.{View, Address, get_line, address_of, address_of_line}
use wx_extension.Address.Commands.{parse_address}
use wx_extension.Address.Commands
use wx_extension.Address.RangeCommands.{move_range}
use wx_extension.Address.RangeCommands
use wx_extension.Address.RangeCommands.Laws.{HoldsLines, moved_to, move_range-lines}
use wx_extension.Address.Line.Laws.{Lines, IsWithin}
use wx_extension.Address.Range.{Range, Screen, range_of, is_ok}
use wx_extension.Address.Range.Laws.{range_of-IsWithin}
use wx_extension.Address.Replacement.{Case, build_replacement}
use wx_extension.Address.Replacement.Laws.{
  literal, target, upper, Part, written, meaning, build_replacement-written,
}
use wx_extension.Address.Global.{Editor, Round, global, global_env, is_infinite}
use wx_extension.Address.Global.Laws.{global-ends}

-- Ten lines of one char, the current one the fifth, without a match; every address is line 3.
abbrev ten : View Bool
ten = record {
  line_count = λ e. pos 10;
  calculator = λ t e. pos 3;
  match = λ t. none;
  is_visual = λ e. true;
  current_pos = λ e. 4;
  text_length = λ e. 10;
  search = λ t a b e. none;
  line_from_position = λ p e. p;
  find_stream = λ t f e. none;
}

abbrev screen : Screen Bool
screen = record { first_visible_line = λ e. 2; lines_on_screen = λ e. 20 }

ten-Lines : Lines ten true 10
ten-Lines = record {
  positive = omega arith;
  counted = refl;
  searched = λ t a b p h. ground arith;
  found = λ t f l h. ground arith;
  current = omega arith;
}

abbrev star : Text
star = b'*' ∷ []

range_of-IsWithin_example :
    let r = range_of ten screen star true in
    IsWithin 10 (get_line ten r.begin true)
    × IsWithin 10 (get_line ten r.end true)
    × (is_ok ten r true ≡ true
        → (pos 1 ≤ℤ get_line ten r.begin true)
          × (get_line ten r.begin true ≤ℤ get_line ten r.end true)
          × (get_line ten r.end true ≤ℤ pos 10))
range_of-IsWithin_example = range_of-IsWithin ten true 10 ten-Lines screen star

abbrev plain_case : Case
plain_case = record { to_upper = λ t. b'U' ∷ t; to_lower = λ t. t }

abbrev parts : List Part
parts = literal b'&' ∷ target ∷ upper ∷ target ∷ literal b'0' ∷ []

build_replacement-written_example :
    build_replacement plain_case (written parts) (b't' ∷ []) ≡ meaning plain_case parts (b't' ∷ [])
build_replacement-written_example = build_replacement-written plain_case parts (b't' ∷ [])

-- An editor that always finds a match on its first line.
abbrev endless : Editor ℕ
endless = record {
  search = λ e. some e;
  match_line = λ e. 0;
  set_target = λ b l e. e;
  target_is_empty = λ e. false;
  run = λ l c e. (suc e, true);
  mark_target = λ e. e;
  mark_line = λ l e. e;
  line_count = λ e. 5;
  clear_marks = λ e. e;
  start_target = λ e. e;
}

abbrev move_last : Text
move_last = b'm' ∷ b'$' ∷ []

global-ends_example :
    (r : Round ℕ) × (global 51 endless (λ t. t ∷ []) move_last false 0 ≡ some r) × (r.hits ≤ 51)
unfolding global_env is_infinite eq_text
global-ends_example = global-ends endless (λ t. t ∷ []) move_last 0 refl

-- A component of lines, with registers, a place to add at, and a selection. A text is added as one
-- line.
record LineEditor : Type 0 where
  lines : List Text
  own_registers : Registers
  place : ℕ
  first : ℕ
  last : ℕ

abbrev lines_view : View LineEditor
lines_view = record {
  line_count = λ e. pos 10;
  calculator = λ t e. pos 3;
  match = λ t. none;
  is_visual = λ e. true;
  current_pos = λ e. 4;
  text_length = λ e. 10;
  search = λ t a b e. none;
  line_from_position = λ p e. p;
  find_stream = λ t f e. none;
}

abbrev line_component : RangeCommands.Component LineEditor
line_component = record {
  view = lines_view;
  is_readonly = λ e. false;
  is_hexmode = λ e. false;
  is_print = λ e. false;
  selected = λ e. concat (drop e.first (take e.last e.lines));
  set_selection = λ b n e. record e { first = pos_part b; last = pos_part n };
  rectangle = λ e. none;
  stream_erase = λ r e. (e, false);
  stream_join = λ r e. (e, false);
  stream_yank = λ c r e. (e, false);
  stream_write = λ t b r e. (e, false);
  registers = λ e. e.own_registers;
  set_registers = λ r e. record e { own_registers = r };
  chosen = λ e. 0;
  replace_selection = λ t e. record e {
    lines = take e.first e.lines ++ ((if is_empty t then [] else t ∷ []) ++ drop e.last e.lines);
    first = 0;
    last = 0;
  };
  marker_delete = λ a e. e;
  add_text = λ t e. record e { lines = take e.place e.lines ++ t ∷ drop e.place e.lines };
  goto_line = λ n e. record e { place = pos_part n };
  tab = λ b e. e;
  join_lines = λ a b e. e;
  is_recorded_macro = λ t e. false;
  run_macro = λ t e. (e, false);
  line_text = λ l e. [];
  line_number = λ l. [];
  print = λ t e. e;
  flags_supported = λ t. true;
  sort_selection = λ s e. (e, false);
  stoi = λ t. none;
  file_write = λ t b e. (e, false);
  file_name = λ t. t;
}

line_component-HoldsLines : HoldsLines line_component (λ e. e.lines)
line_component-HoldsLines = record {
  visual = λ e. refl;
  editable = λ e. refl;
  unchosen = λ e. refl;
  selected_lines = λ b n e h k. refl;
  cut_lines = λ b n r e h k. refl;
  cut_registers = λ t r e. refl;
  stored_lines = λ r e. refl;
  stored_registers = λ r e. refl;
  kept_lines = λ a e. refl;
  kept_registers = λ a e. refl;
  gone_registers = λ k e. refl;
  added = λ k t e h. concat-append (take k e.lines) (t ∷ drop k e.lines);
}

abbrev line : ℕ → Text
line n = n ∷ []

abbrev five : LineEditor
five = record {
  lines = line 1 ∷ line 2 ∷ line 3 ∷ line 4 ∷ line 5 ∷ [];
  own_registers = record { macros = λ k. []; clipboard = [] };
  place = 0;
  first = 0;
  last = 0;
}

abbrev first_two : Range
first_two = record { begin = address_of_line (pos 1); end = address_of_line (pos 2) }

move_range-lines_example :
    ((move_range line_component (address_of_line (pos 4)) first_two five).1 ≡ true)
    × (concat (move_range line_component (address_of_line (pos 4)) first_two five).0.lines
        ≡ concat (moved_to 0 2 3 five.lines))
unfolding get_line
move_range-lines_example =
    move_range-lines line_component (λ e. e.lines) line_component-HoldsLines 0 1 3
      (address_of_line (pos 4)) first_two five (omega arith) (omega arith) (omega arith) refl refl
      refl refl refl refl

-- two lines that are moved behind the fourth one come behind the fifth one
moved_lines : moved_to 0 2 3 five.lines ≡ line 3 ∷ line 4 ∷ line 5 ∷ line 1 ∷ line 2 ∷ []
moved_lines = refl

abbrev address_component : Commands.Component Bool
address_component = record {
  view = record ten { calculator = λ t e. pos 0 };
  is_readonly = λ e. false;
  is_hexmode = λ e. false;
  insert_at = λ l t e. false;
  goto_line = λ l e. e;
  add_text = λ t e. e;
  stream_insert = λ a t b e. e;
  trim = λ t. t;
  marker_add = λ m l e. (e, true);
  marker_delete = λ m e. (e, true);
  get_register = λ r e. [];
  show_ex_input = λ c e. (e, true);
  visual = λ e. e;
  show_line = λ l e. e;
  print = λ t e. e;
  line_text = λ l e. [];
  line_number = λ l. [];
  eol = λ e. [];
  system = λ t e. (none, e);
  read_file = λ t e. none;
  window = λ t. none;
  flags_match = λ t. true;
}

abbrev no_line : Address
no_line = address_of (b'0' ∷ [])
