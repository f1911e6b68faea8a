-- ===== src/Vi/Component.antt =====
-- What class vi calls, and its members (include/wex/vi.h).
use wx_extension.Prelude.{ℕ, Bool, Option, List, Text, ℤ}
use wx_extension.ViMode.Machine.{Effect, Fsm}
use wx_extension.ViMode.Transition as Mode
use wx_extension.Ex.Expansion.{Source}

-- The names that MOTION puts together: scope, direction and how the selection goes along.
pub data Scope : Type 0 where
  char line word big_word vc para page document : Scope

pub data Direction : Type 0 where
  left right up down home start end right_end scroll_up scroll_down : Direction

pub data Extent : Type 0 where
  plain extend rect_extend : Extent

pub data FindFlags : Type 0 where
  no_flags search_flags whole_word regexp : FindFlags

-- move: the method that the three names spell. find and vi_find: find of the component.
-- brace_match: `none` for wxSTC_INVALID_POSITION. source: what marker_and_register_expansion reads.
-- calculator: the result as a text. tokens: boost's char_separator, "\r\n" kept, and empty tokens.
-- find_text: `none` for wxSTC_INVALID_POSITION. macro_mode: transition of the macro mode with a
-- command and a count. step_number: what the increment or the decrement of the number at the
-- position does. tags, fold, window and browse: the tag, fold, frame and browser commands. shift:
-- the lines are a count, or '<,'>. char_at and replace_char: at the position.
pub record Stc (E : Type 0) : Type 0 where
  pub move : Scope → Direction → Extent → E → E
  pub current_pos : E → ℕ
  pub document_length : E → ℕ
  pub column : E → ℕ
  pub indentation : E → ℕ
  pub line_end_position : E → ℕ
  pub current_line : E → ℕ
  pub first_visible_line : E → ℕ
  pub lines_on_screen : E → ℕ
  pub position_from_line : ℤ → E → ℤ
  pub line_from_position : ℤ → E → ℤ
  pub goto_line : ℤ → E → E
  pub goto_pos : ℤ → E → E
  pub inject_line : ℕ → E → E
  pub set_selection : ℤ → ℤ → E → E
  pub selected_text : E → Text
  pub selection_start : E → ℕ
  pub replace_selection : Text → E → E
  pub select_none : E → E
  pub copy_range : ℤ → ℤ → E → E
  pub find : Text → FindFlags → Bool → E → E × Bool
  pub search_text : E → Text
  pub set_find_string : Text → E → E
  pub margin_click : E → ℤ
  pub is_visual : E → Bool
  pub is_active : E → Bool
  pub show_ex_command : Text → E → E × Bool
  pub brace_match : ℤ → E → Option ℕ
  pub marker_goto : ℕ → E → E
  pub marker_add : ℕ → E → E
  pub ex_command : Text → E → E × Bool
  pub auto_write : E → E
  pub trim : Text → Text
  pub get_register : ℕ → E → Text
  pub set_register : ℕ → Text → E → E
  pub record_macro : Text → Bool → E → E
  pub key_map : ℕ → E → Option Text
  pub source : E → Source
  pub calculator : Text → E → Text
  pub show_message : Text → E → E
  pub clipboard_add : Text → E → E
  pub filename : E → Text
  pub path_text : E → Text
  pub is_readonly : E → Bool
  pub is_hexmode : E → Bool
  pub text_range : ℤ → ℤ → E → Text
  pub delete_text : ℤ → ℤ → E → E
  pub hexmode_erase : ℤ → ℤ → E → E
  pub hexmode_insert : Text → E → E × Bool
  pub hexmode_replace : ℕ → E → E × Bool
  pub replace_target : ℕ → ℕ → Text → E → E
  pub add_text : Text → E → E
  pub tokens : Text → List Text
  pub abbreviation : Text → E → Option Text
  pub find_text : ℕ → ℤ → Text → E → Option ℕ
  pub set_current_pos : ℕ → E → E
  pub auto_indentation : E → E
  pub delete_back : E → E
  pub new_line : E → E
  pub eol : E → Text
  pub autocomp_active : E → Bool
  pub get_overtype : E → Bool
  pub set_overtype : Bool → E → E
  pub begin_undo : E → E
  pub end_undo : E → E
  pub undo : E → E
  pub join : ℕ → E → E
  pub erase_lines : ℕ → E → E × Bool
  pub yank_lines : ℕ → E → E × Bool
  pub macro_mode : Text → ℕ → E → E × ℕ
  pub step_number : Bool → E → Option E
  pub tags : ℕ → E → E
  pub fold : Text → E → E
  pub window : Text → E → E
  pub shift : Bool → Option ℕ → E → E
  pub word : E → Text
  pub browse : Text → E → E
  pub replace_char : ℕ → E → E
  pub char_at : E → Option ℕ
  pub mode : E → Mode.Component
  pub effect : Effect → E → E

pub record Vi (E : Type 0) : Type 0 where
  pub insert_command : Text
  pub insert_text : Text
  pub last_command : Text
  pub last_find : Text
  pub count : ℕ
  pub count_present : Bool
  pub dot : Bool
  pub search_forward : Bool
  pub fsm : Fsm
  pub typed : Text
  pub register : ℕ
  pub around : E

abbrev pub on_stc : {E : Type 0} → (E → E) → Vi E → Vi E
on_stc f v = record v { around = f v.around }
