-- ===== src/Vi/Sample.antt =====
-- A component of one line of text, to run the commands of class vi on. A word is one char, the
-- selection and the registers but one are left out.
use wx_extension.Prelude.{
  ℕ, ◌+◌, ◌-◌, Bool, true, false, none, some, List, [], ◌∷◌, ◌++◌, Text, length, take, drop,
  if◌then◌else◌, ◌==◌, ltb, pos, negsuc, pos_part, get_elem?,
}
use wx_extension.Core.Text.{find_char, rfind_char}
use wx_extension.ViMode.Machine.{Effect, initial}
use wx_extension.ViMode.Transition as Mode
use wx_extension.Vi.Component.{Direction, Stc, Vi}

-- `recorded` is what the macro being recorded gets, `undos` the undo actions that are open.
pub record Line : Type 0 where
  pub text : Text
  pub at : ℕ
  pub registers : ℕ → Text
  pub recorded : List Text
  pub undos : ℕ

abbrev move_in_line : Direction → Line → Line
move_in_line d l = elim d [
  | Direction.left ↦ record l { at = l.at - 1 }
  | Direction.right ↦ record l { at = if ltb l.at (length l.text) then l.at + 1 else l.at }
  | Direction.home ↦ record l { at = 0 }
  | Direction.start ↦ record l { at = 0 }
  | Direction.end ↦ record l { at = length l.text }
  | _ ↦ l
]

abbrev find_in_line : Text → Bool → Line → Line × Bool
find_in_line [] forward l = (l, false)
find_in_line (c ∷ _) forward l =
    elim (if forward
      then find_char c (drop (l.at + 1) l.text)
      else rfind_char c (take l.at l.text)) [
        | none ↦ (l, false)
        | some i ↦ (record l { at = if forward then l.at + 1 + i else i }, true)
      ]

abbrev delete_in_line : ℕ → ℕ → Line → Line
delete_in_line p n l = record l {
  text = take p l.text ++ drop n (drop p l.text);
  at = if ltb p l.at then (if ltb l.at (p + n) then p else l.at - n) else l.at;
}

abbrev put_in_line : Text → Line → Line
put_in_line t l = record l {
  text = take l.at l.text ++ (t ++ drop l.at l.text);
  at = l.at + length t;
}

abbrev sample_answers : Mode.Component
sample_answers = record {
  readonly = false;
  is_hexmode = false;
  selection_is_rectangle = false;
  selected_text_empty = true;
  selection_start = 0;
  selection_end = 0;
  line_from_position = λ p. 0;
  position_from_line = λ n. 0;
  is_recording = true;
  show_mode = false;
}

abbrev pub sample : Stc Line
sample = record {
  move = λ s d e l. move_in_line d l;
  current_pos = λ l. l.at;
  document_length = λ l. length l.text;
  column = λ l. l.at;
  indentation = λ l. 0;
  line_end_position = λ l. length l.text;
  current_line = λ l. 0;
  first_visible_line = λ l. 0;
  lines_on_screen = λ l. 1;
  position_from_line = λ n l. pos 0;
  line_from_position = λ p l. pos 0;
  goto_line = λ n l. record l { at = 0 };
  goto_pos = λ p l. record l { at = pos_part p };
  inject_line = λ n l. l;
  set_selection = λ a b l. l;
  selected_text = λ l. [];
  selection_start = λ l. l.at;
  replace_selection = λ t l. l;
  select_none = λ l. l;
  copy_range = λ a n l. l;
  find = λ t f forward l. find_in_line t forward l;
  search_text = λ l. [];
  set_find_string = λ t l. l;
  margin_click = λ l. negsuc 0;
  is_visual = λ l. true;
  is_active = λ l. true;
  show_ex_command = λ t l. (l, true);
  brace_match = λ p l. none;
  marker_goto = λ c l. l;
  marker_add = λ c l. l;
  ex_command = λ t l. (l, false);
  auto_write = λ l. l;
  trim = λ t. t;
  get_register = λ c l. l.registers c;
  set_register = λ c t l. record l { registers = λ d. if d == c then t else l.registers d };
  record_macro = λ t joined l. record l { recorded = l.recorded ++ t ∷ [] };
  key_map = λ c l. none;
  source = λ l. record {
    marker_line = λ c. none;
    registers = record { macros = λ c. l.registers c ∷ []; clipboard = [] };
    filename = [];
  };
  calculator = λ t l. [];
  show_message = λ t l. l;
  clipboard_add = λ t l. l;
  filename = λ l. [];
  path_text = λ l. [];
  is_readonly = λ l. false;
  is_hexmode = λ l. false;
  text_range = λ a b l. take (pos_part b - pos_part a) (drop (pos_part a) l.text);
  delete_text = λ p n l. delete_in_line (pos_part p) (pos_part n) l;
  hexmode_erase = λ n p l. l;
  hexmode_insert = λ t l. (l, false);
  hexmode_replace = λ c l. (l, false);
  replace_target = λ a b t l. record l { text = take a l.text ++ (t ++ drop b l.text) };
  add_text = put_in_line;
  tokens = λ t. t ∷ [];
  abbreviation = λ t l. none;
  find_text = λ p n t l. none;
  set_current_pos = λ p l. record l { at = p };
  auto_indentation = λ l. l;
  delete_back = λ l. delete_in_line (l.at - 1) 1 l;
  new_line = λ l. put_in_line (10 ∷ []) l;
  eol = λ l. 10 ∷ [];
  autocomp_active = λ l. false;
  get_overtype = λ l. false;
  set_overtype = λ b l. l;
  begin_undo = λ l. record l { undos = l.undos + 1 };
  end_undo = λ l. record l { undos = l.undos - 1 };
  undo = λ l. l;
  join = λ n l. l;
  erase_lines = λ n l. (record l { text = []; at = 0 }, true);
  yank_lines = λ n l. (l, true);
  macro_mode = λ t n l. (l, 0);
  step_number = λ up l. none;
  tags = λ c l. l;
  fold = λ t l. l;
  window = λ t l. l;
  shift = λ right n l. l;
  word = λ l. [];
  browse = λ t l. l;
  replace_char = λ c l. record l { text = take l.at l.text ++ (c ∷ drop (l.at + 1) l.text) };
  char_at = λ l. get_elem? l.text l.at;
  mode = λ l. sample_answers;
  effect = λ f l. elim f [
    | Effect.char_right ↦ move_in_line Direction.right l
    | Effect.line_end ↦ move_in_line Direction.end l
    | Effect.home ↦ move_in_line Direction.home l
    | _ ↦ l
  ];
}

abbrev pub on_line : Text → ℕ → Vi Line
on_line t p = record {
  insert_command = [];
  insert_text = [];
  last_command = [];
  last_find = [];
  count = 1;
  count_present = false;
  dot = false;
  search_forward = true;
  fsm = initial;
  typed = [];
  register = 0;
  around = record { text = t; at = p; registers = λ c. []; recorded = []; undos = 0 };
}
