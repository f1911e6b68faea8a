-- ===== src/HexMode/Fields.antt =====
-- The fields of a line of hex mode (src/stc/hexmode-line.h, src/stc/hexmode-line.cpp). A line and a
-- column that the component gives are never negative, so tests for that are left out. A read at the
-- end of a line gives its terminator. Reads outside a line, which C++ leaves undefined, are not
-- told apart: they give 0 behind it, and its first char before it.
pub mod Laws
use wx_extension.Prelude.{
  ℕ, ◌+◌, ◌-◌, ◌*◌, ◌/◌, Bool, true, false, not, ◌&&◌, Option, none, some, Text, get_or, ltb, leb,
  ◌==◌, if◌then◌else◌, space,
}
use wx_extension.HexMode.Layout.{Hex, each_hex_field}

pub record HexLine : Type 0 where
  pub text : Text
  pub line_no : ℕ
  pub column_no : ℕ

module _ (h : Hex) where
  abbrev pub start_ascii_field : ℕ
  start_ascii_field = each_hex_field * h.bytes_per_line

  abbrev pub char_at : ℕ → HexLine → ℕ
  char_at column l = get_or l.text column 0

  unfoldable pub is_ascii_field : HexLine → Bool
  is_ascii_field l =
      leb start_ascii_field l.column_no && ltb l.column_no (start_ascii_field + h.bytes_per_line)

  unfoldable pub is_hex_field : HexLine → Bool
  is_hex_field l = ltb l.column_no start_ascii_field

  unfoldable pub is_readonly : HexLine → Bool
  unfolding is_ascii_field is_hex_field
  is_readonly l =
      if is_ascii_field l
      then false
      else if is_hex_field l
      then (if not (char_at l.column_no l == space) then false else true)
      else true

  -- A byte offset in the buffer: 16 bytes for each line.
  abbrev pub convert : ℕ → HexLine → ℕ
  convert offset l = l.line_no * 16 + offset

  unfoldable pub get_ascii_field : HexLine → Option ℕ
  get_ascii_field l =
      if not (char_at l.column_no l == space)
      then some (start_ascii_field + l.column_no / each_hex_field)
      else none

  unfoldable pub get_hex_field : HexLine → ℕ
  get_hex_field l = each_hex_field * (l.column_no - start_ascii_field)

  -- wxSTC_INVALID_POSITION is `none`.
  unfoldable pub other_field : HexLine → Option ℕ
  unfolding is_ascii_field is_hex_field get_ascii_field get_hex_field
  other_field l =
      if is_ascii_field l
      then some (get_hex_field l)
      else if is_hex_field l
      then get_ascii_field l
      else none

  unfoldable pub buffer_index : HexLine → Option ℕ
  buffer_index l =
      if leb (start_ascii_field + h.bytes_per_line) l.column_no
      then none
      else if leb start_ascii_field l.column_no
      then some (convert (l.column_no - start_ascii_field) l)
      else if not (char_at l.column_no l == space)
      then some (convert (l.column_no / each_hex_field) l)
      else none

  -- The constructor from a position, of which the component gives the column and the line;
  -- `get_line` is the text of a line.
  unfoldable pub at_position : (ℕ → Text) → ℕ → ℕ → HexLine
  at_position get_line line_no column_no =
      if leb (start_ascii_field + h.bytes_per_line) column_no
      then record {
        text = get_line (line_no + 1);
        line_no = line_no + 1;
        column_no = start_ascii_field;
      }
      else record { text = get_line line_no; line_no = line_no; column_no = column_no }
