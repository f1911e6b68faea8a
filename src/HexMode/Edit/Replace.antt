-- ===== src/HexMode/Edit/Replace.antt =====
-- What a replacement leaves in the buffer (src/stc/hexmode-line.cpp: replace).
use wx_extension.Prelude.{
  ℕ, ◌+◌, ◌-◌, ◌*◌, ◌/◌, ◌<◌, ◌≡◌, Bool, true, inl, inr, some, List, [], ◌∷◌, ◌++◌, Text, length,
  set, ◌==◌, if◌then◌else◌, arith, refl, space, Option-cases, Bool-cases,
}
use wx_extension.HexMode.Layout.{Hex, each_hex_field, printable}
use wx_extension.HexMode.Fields.{
  HexLine, start_ascii_field, is_ascii_field, is_hex_field, other_field, buffer_index, char_at,
}
use wx_extension.HexMode.Fields.Laws.{fields-is_hex_field}
use wx_extension.HexMode.Buffer.{HexState, Effect, replaced}
use wx_extension.HexMode.Edit.{
  Component, replace, replace_digit, replace_ascii, put_byte, stoi_byte, digit, code_chars, digits,
}

digit-bound : (c m : ℕ) → digit c ≡ some m → m < 16
unfolding digit
digit-bound c m e = ground arith

digits-two :
    (c d m n : ℕ) → digit c ≡ some m → digit d ≡ some n → digits 0 (c ∷ d ∷ []) ≡ m * 16 + n
unfolding digits
digits-two c d m n hc hd = ground arith

pub stoi_byte-code :
    (c d m n : ℕ) → digit c ≡ some m → digit d ≡ some n → stoi_byte c d ≡ some (m * 16 + n)
unfolding stoi_byte
stoi_byte-code c d m n hc hd =
    ground (arith, digits-two c d m n hc hd, digit-bound c m hc, digit-bound d n hd)

-- The component is told of a replacement of the column and of one of the other field.
abbrev pub replacements : ℕ → ℕ → ℕ → HexLine → Text → List Effect
replacements start other c l shown =
    replaced (start + l.column_no) (start + l.column_no + 1) (c ∷ [])
    ∷ replaced (start + other) (start + other + length shown) shown
    ∷ []

abbrev pub IsReplaced : ℕ → ℕ → ℕ → ℕ → HexLine → HexState → HexState → Type 0
IsReplaced start other index c l s s' =
    (byte : ℕ) × (shown : Text) × (index < length s.buffer)
    × (s'.buffer ≡ set s.buffer index byte)
    × (s'.effects ≡ s.effects ++ replacements start other c l shown)

module _ (h : Hex) (two : (c : ℕ) → length (h.hex c) ≡ 2) where
  replace_ascii-IsReplaced :
      (start other index c : ℕ) (l : HexLine) (s s' : HexState)
      → replace_ascii h start other index c l s ≡ some (true, s')
      → IsReplaced start other index c l s s'
  unfolding replace_ascii put_byte
  replace_ascii-IsReplaced start other index c l s s' e =
      (c, h.hex c, ground arith, ground arith, ground (arith, two c))

  replace_digit-IsReplaced :
      (start other index c : ℕ) (l : HexLine) (s s' : HexState)
      → replace_digit h start other index c l s ≡ some (true, s')
      → IsReplaced start other index c l s s'
  unfolding replace_digit put_byte
  replace_digit-IsReplaced start other index c l s s' e =
      elim (Option-cases (stoi_byte (code_chars h c l).0 (code_chars h c l).1)) [
        | inl q ↦ absurd (ground arith)
        | inr (code, q) ↦
            (code, printable h s.is_active code ∷ [], ground arith, ground arith, ground arith)
      ]

  -- Where a byte has a hex code of two chars: if a replacement returns true, then the column stands
  -- for a byte of the buffer and has another field, this byte alone is changed, and the component
  -- is told of two replacements: of the char at the column, and of the other field.
  pub replace-IsReplaced :
      (v : Component) (c : ℕ) (l : HexLine) (s s' : HexState)
      → replace h v c l s ≡ some (true, s')
      → (index : ℕ) × (other : ℕ) × (buffer_index h l ≡ some index)
        × (other_field h l ≡ some other)
        × IsReplaced (v.position_from_line l.line_no) other index c l s s'
  unfolding replace
  replace-IsReplaced v c l s s' e = elim (Option-cases (buffer_index h l)) [
    | inl q ↦ absurd (ground arith)
    | inr (index, q) ↦ elim (Option-cases (other_field h l)) [
      | inl o ↦ absurd (ground arith)
      | inr (other, o) ↦ (
        index,
        other,
        q,
        o,
        elim (Bool-cases (is_ascii_field h l)) [
          | inl a ↦
              replace_ascii-IsReplaced (v.position_from_line l.line_no) other index c l s s'
                (ground arith)
          | inr a ↦
              replace_digit-IsReplaced (v.position_from_line l.line_no) other index c l s s'
                (ground arith)
        ],
      )
    ]
  ]

-- Where the char behind the column is blank, the column is that of the second digit.
abbrev pub is_second : Hex → HexLine → Bool
is_second h l = char_at h (l.column_no + 1) l == space

module _ (h : Hex) (l : HexLine) (s : HexState) (index c m p : ℕ) (hc : digit c ≡ some m)
    (hp : digit (char_at h (if is_second h l then l.column_no - 1 else l.column_no) l) ≡ some p)
    (i : index < length s.buffer) where
  code_chars-byte :
      stoi_byte (code_chars h c l).0 (code_chars h c l).1
      ≡ some (if is_second h l then p * 16 + m else m * 16 + p)
  code_chars-byte = ground (
    arith,
    stoi_byte-code c (char_at h l.column_no l) m p,
    stoi_byte-code (char_at h (l.column_no - 1) l) c p m,
  )

  replace_digit-byte :
      (start other : ℕ)
      → (s' : HexState) × (replace_digit h start other index c l s ≡ some (true, s'))
        × (s'.buffer ≡ set s.buffer index (if is_second h l then p * 16 + m else m * 16 + p))
  unfolding replace_digit put_byte
  replace_digit-byte start other =
      let byte = if is_second h l then p * 16 + m else m * 16 + p in
      (
        record s {
          buffer = set s.buffer index byte;
          effects =
              s.effects
              ++ (replaced (start + l.column_no) (start + l.column_no + 1) (c ∷ [])
                  ∷ replaced (start + other) (start + other + 1) (printable h s.is_active byte ∷ [])
                  ∷ []);
        },
        ground (arith, code_chars-byte),
        refl,
      )

  -- A column of the hex fields that stands for a byte of the buffer, where a hex digit is replaced
  -- by another: the replacement succeeds. At the second digit of the byte, the byte becomes the
  -- code of its first digit and the new one; at the first digit, it becomes the code of the new
  -- digit and of the digit that it replaces (not of the second one).
  pub replace-byte :
      (v : Component)
      → is_hex_field h l ≡ true
      → buffer_index h l ≡ some index
      → (s' : HexState) × (replace h v c l s ≡ some (true, s'))
        × (s'.buffer ≡ set s.buffer index (if is_second h l then p * 16 + m else m * 16 + p))
  unfolding replace
  replace-byte v x b =
      let other = start_ascii_field h + l.column_no / each_hex_field in
      let (s', e, q) = replace_digit-byte (v.position_from_line l.line_no) other in
      (s', ground (arith, fields-is_hex_field h l index x b), q)
