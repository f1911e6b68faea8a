-- ===== src/HexMode/Edit.antt =====
-- The edits of one line of hex mode (src/stc/hexmode-line.cpp: erase, insert, replace, replace_hex,
-- set_pos) and of a target (src/stc/hexmode.cpp: replace_target). `none` is a write behind the end
-- of the buffer, or a number that std::stoi refuses. The buffer holds bytes.
pub mod Laws
pub mod Replace
use wx_extension.Prelude.{
  ◌>>=◌, ℕ, ◌+◌, ◌-◌, ◌*◌, ◌%◌, Bool, true, false, not, ◌&&◌, ◌||◌, Option, none, some, [], ◌∷◌,
  ◌++◌, Text, length, take, drop, set, ltb, leb, ◌==◌, if◌then◌else◌, space, is_digit,
}
use wx_extension.HexMode.Layout.{Hex, printable}
use wx_extension.HexMode.Fields.{
  HexLine, start_ascii_field, is_ascii_field, is_hex_field, is_readonly, other_field, buffer_index,
  char_at,
}
use wx_extension.HexMode.Buffer.{
  HexState, tell, set_text, replaced, select_none, set_current_pos, set_focus,
}

-- The value of a hex digit.
unfoldable pub digit : ℕ → Option ℕ
digit c =
    if is_digit c
    then some (c - b'0')
    else if leb b'a' c && leb c b'f'
    then some (c - 87)
    else if leb b'A' c && leb c b'F'
    then some (c - 55)
    else none

abbrev pub isxdigit : ℕ → Bool
isxdigit c = elim (digit c) [ some _ ↦ true | none ↦ false ]

abbrev pub is_space : ℕ → Bool
is_space c = c == space || (leb 9 c && leb c 13)

-- The digits of a number, up to a char that is none.
unfoldable pub digits : ℕ → Text → ℕ
digits n [] = n
digits n (c ∷ t) = elim (digit c) [ some d ↦ digits (n * 16 + d) t | none ↦ n ]

-- std::stoi of a text of two chars to base 16, as the byte that it is converted to: a sign or white
-- space may stand before a digit. (A prefix 0x with no digit behind it gives 0.)
unfoldable pub stoi_byte : ℕ → ℕ → Option ℕ
unfolding digits digit
stoi_byte c d =
    if isxdigit c
    then some (digits 0 (c ∷ d ∷ []) % 256)
    else if (is_space c || c == b'+') && isxdigit d
    then some (digits 0 (d ∷ []))
    else if c == b'-' && isxdigit d
    then some ((256 - digits 0 (d ∷ [])) % 256)
    else none

-- m_buffer[index] = c
unfoldable pub put_byte : ℕ → ℕ → HexState → Option HexState
put_byte index c s =
    if ltb index (length s.buffer) then some (record s { buffer = set s.buffer index c }) else none

-- m_buffer.insert(index, text), which throws behind the end.
unfoldable pub insert_bytes : ℕ → Text → HexState → Option HexState
insert_bytes index text s =
    if leb index (length s.buffer)
    then some (record s { buffer = take index s.buffer ++ (text ++ drop index s.buffer) })
    else none

-- What the component answers: the start of a line, the line of a position, the caret.
pub record Component : Type 0 where
  pub position_from_line : ℕ → ℕ
  pub line_from_position : ℕ → ℕ
  pub current_pos : ℕ

module _ (h : Hex) where
  unfoldable pub erase : ℕ → Bool → HexLine → HexState → Option (Bool × HexState)
  erase count settext l s = elim (buffer_index h l) [
    | none ↦ some (false, s)
    | some index ↦
        if is_readonly h l || leb (length s.buffer) index
        then some (false, s)
        else (let s₁ : HexState = record s {
          buffer = take index s.buffer ++ drop (index + count) s.buffer;
        } in
            if settext then (do s₂ ← set_text h s₁.buffer s₁; some (true, s₂)) else some (true, s₁))
  ]

  -- The caret behind an insertion of `size` chars into the ascii field, and no selection.
  abbrev pub move_caret : Component → ℕ → HexLine → HexState → HexState
  move_caret v size l s =
      tell
        (set_current_pos (
            if leb (h.bytes_per_line + start_ascii_field h) (l.column_no + size)
            then v.position_from_line (v.line_from_position v.current_pos + 1) + start_ascii_field h
            else v.current_pos + size)
          ∷ select_none
          ∷ [])
        s

  unfoldable pub insert_ascii : Component → ℕ → Text → HexLine → HexState → Option (Bool × HexState)
  unfolding insert_bytes
  insert_ascii v index text l s = do
    s₁ ← insert_bytes index text s
    s₂ ← set_text h s₁.buffer s₁
    some (true, move_caret v (length text) l s₂)

  -- Two chars of which at least one is a hex digit.
  unfoldable pub insert_hex : ℕ → Text → HexState → Option (Bool × HexState)
  unfolding insert_bytes stoi_byte
  insert_hex index (c ∷ d ∷ []) s =
      if not (isxdigit c) && not (isxdigit d) then some (false, s) else (do
        byte ← stoi_byte c d
        s₁ ← insert_bytes index (byte ∷ []) s
        s₂ ← set_text h s₁.buffer s₁
        some (true, s₂))
  insert_hex index text s = some (false, s)

  unfoldable pub insert : Component → Text → HexLine → HexState → Option (Bool × HexState)
  unfolding insert_ascii insert_hex
  insert v text l s = elim (buffer_index h l) [
    | none ↦ some (false, s)
    | some index ↦
        if is_readonly h l
        then some (false, s)
        else if leb (start_ascii_field h) l.column_no
        then insert_ascii v index text l s
        else insert_hex index text s
  ]

  -- The char of an ascii field, and the hex code of its byte at `other`.
  unfoldable pub replace_ascii : ℕ → ℕ → ℕ → ℕ → HexLine → HexState → Option (Bool × HexState)
  unfolding put_byte
  replace_ascii start other index c l s = do
    s' ← put_byte index c (
        tell
          (replaced (start + l.column_no) (start + l.column_no + 1) (c ∷ [])
            ∷ replaced (start + other) (start + other + 2) (h.hex c)
            ∷ [])
          s)
    some (true, s')

  -- The two chars that the code of the byte is read from.
  abbrev pub code_chars : ℕ → HexLine → ℕ × ℕ
  code_chars c l =
      if char_at h (l.column_no + 1) l == space
      then (char_at h (l.column_no - 1) l, c)
      else (c, char_at h l.column_no l)

  -- A digit of a hex field, and the char of its byte at `other`.
  unfoldable pub replace_digit : ℕ → ℕ → ℕ → ℕ → HexLine → HexState → Option (Bool × HexState)
  unfolding put_byte stoi_byte
  replace_digit start other index c l s = if not (isxdigit c) then some (false, s) else (do
    code ← stoi_byte (code_chars c l).0 (code_chars c l).1
    s' ← put_byte index code (
        tell
          (replaced (start + l.column_no) (start + l.column_no + 1) (c ∷ [])
            ∷ replaced (start + other) (start + other + 1) (printable h s.is_active code ∷ [])
            ∷ [])
          s)
    some (true, s'))

  unfoldable pub replace : Component → ℕ → HexLine → HexState → Option (Bool × HexState)
  unfolding replace_ascii replace_digit
  replace v c l s = elim (buffer_index h l) [
    | none ↦ some (false, s)
    | some index ↦ if is_readonly h l then some (false, s) else (elim (other_field h l) [
      | none ↦ some (false, s)
      | some other ↦
          if is_ascii_field h l
          then replace_ascii (v.position_from_line l.line_no) other index c l s
          else if is_hex_field h l
          then replace_digit (v.position_from_line l.line_no) other index c l s
          else some (false, s)
    ])
  ]

  -- replace(hex, settext), for a `hex` of two chars.
  unfoldable pub replace_code : ℕ → ℕ → Bool → HexLine → HexState → Option HexState
  unfolding put_byte stoi_byte
  replace_code c d settext l s = elim (buffer_index h l) [
    | none ↦ some s
    | some index ↦ if is_readonly h l then some s else (do
      byte ← stoi_byte c d
      s₁ ← put_byte index byte s
      if settext then set_text h s₁.buffer s₁ else some s₁)
  ]

  -- replace_hex(value), for a value of one byte; a column that can be written has another field.
  unfoldable pub replace_hex : Component → ℕ → HexLine → HexState → Option HexState
  unfolding put_byte
  replace_hex v value l s = elim (buffer_index h l) [
    | none ↦ some s
    | some index ↦ if is_readonly h l then some s else (do
      other ← other_field h l
      let start = v.position_from_line l.line_no
      put_byte index value (
          tell
            (replaced (start + l.column_no) (start + l.column_no + 2) (h.hex value)
              ∷ replaced (start + other) (start + other + 1) (printable h s.is_active value ∷ [])
              ∷ [])
            s))
  ]

  -- set_pos()
  unfoldable pub set_pos : Component → HexLine → HexState → HexState
  set_pos v l s =
      tell
        (set_focus
          ∷ set_current_pos (v.position_from_line l.line_no + start_ascii_field h + l.column_no)
          ∷ select_none
          ∷ [])
        s
