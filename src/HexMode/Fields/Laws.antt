-- ===== src/HexMode/Fields/Laws.antt =====
-- The two fields of a byte (src/stc/hexmode-line.h).
use wx_extension.Prelude.{ℕ, ◌+◌, ◌/◌, ◌≡◌, ◌≢◌, true, false, none, some, arith, space}
use wx_extension.HexMode.Layout.{Hex, each_hex_field}
use wx_extension.HexMode.Fields.{
  HexLine, is_readonly, is_ascii_field, is_hex_field, other_field, buffer_index, start_ascii_field,
  char_at,
}

module _ (h : Hex) where
  -- A line may be written at a column exactly if the column stands for a byte of the buffer, and
  -- then exactly if it has another field, that of the same byte.
  pub buffer_index-is_readonly :
      (l : HexLine)
      → (buffer_index h l ≡ none → is_readonly h l ≡ true)
        × (is_readonly h l ≡ true → other_field h l ≡ none)
        × (other_field h l ≡ none → buffer_index h l ≡ none)
  unfolding buffer_index is_readonly other_field
  buffer_index-is_readonly l = ground arith

  -- The other field of a column stands for the same byte of the buffer, where its char is not
  -- blank.
  pub buffer_index-other_field :
      (l : HexLine) (c : ℕ)
      → other_field h l ≡ some c
      → char_at h c l ≢ space
      → buffer_index h (record l { column_no = c }) ≡ buffer_index h l
  unfolding buffer_index other_field
  buffer_index-other_field l c e n = ground arith

  pub fields-is_hex_field :
      (l : HexLine) (index : ℕ)
      → is_hex_field h l ≡ true
      → buffer_index h l ≡ some index
      → (is_readonly h l ≡ false)
        × (is_ascii_field h l ≡ false)
        × (other_field h l ≡ some (start_ascii_field h + l.column_no / each_hex_field))
  unfolding buffer_index is_readonly other_field
  fields-is_hex_field l index x e = ground arith
