-- ===== src/HexMode/Layout/Rows.antt =====
-- The text of a buffer (src/factory/hexmode.cpp) against rows of bytes.
use wx_extension.Prelude.{
  ℕ, zero, suc, ◌+◌, ◌-◌, ◌*◌, ◌<◌, ◌≤◌, ◌≡◌, Bool, true, false, some, List, [], ◌∷◌, ◌++◌, Text,
  length, take, drop, concat, map, replicate, ltb, space, arith, refl, sym, ap, ◌∙◌, append-nil,
  append_assoc, length-append, Bool-cases, inl, inr,
}
use wx_extension.HexMode.Layout.{
  Hex, each_hex_field, field_hex, field_ascii, line, lines_from, lines,
}

-- One row: the hex codes, spaces for the bytes that are missing, and the printable chars.
abbrev pub row : Hex → Text → Text
row h bytes =
    field_hex h bytes
    ++ (replicate ((h.bytes_per_line - length bytes) * each_hex_field) space
        ++ field_ascii h true bytes)

-- Full rows, each of as many bytes as a line has.
abbrev pub AllFull : Hex → List Text → Type 0
AllFull h [] = Unit
AllFull h (x ∷ xs) = (length x ≡ h.bytes_per_line) × AllFull h xs

pub drop-before : (before text : Text) → drop (length before) (before ++ text) ≡ text
drop-before [] text = refl
drop-before (c ∷ before) text = drop-before before text

take-before : (before text : Text) → take (length before) (before ++ text) ≡ before
take-before [] text = refl
take-before (c ∷ before) text = ap (c ∷◌) (take-before before text)

-- A line in the middle, and the last one.
line-full :
    (h : Hex) (before x rest : Text)
    → length x ≡ h.bytes_per_line
    → 0 < length rest
    → line h true (before ++ (x ++ rest)) (length before) ≡ row h x ++ h.eol
unfolding line
line-full h before x rest e r = ground (
  arith,
  length-append before (x ++ rest),
  length-append x rest,
  drop-before before (x ++ rest),
  take-before x rest,
  append_assoc (field_hex h x)
      (replicate ((h.bytes_per_line - length x) * each_hex_field) space ++ field_ascii h true x)
      h.eol,
  append_assoc (replicate ((h.bytes_per_line - length x) * each_hex_field) space)
      (field_ascii h true x) h.eol,
)

line-last :
    (h : Hex) (before x : Text)
    → length x ≤ h.bytes_per_line
    → line h true (before ++ x) (length before) ≡ row h x
unfolding line
line-last h before x e = ground (
  arith,
  length-append before x,
  drop-before before x,
  take-before x [],
  append-nil x,
  append-nil (field_ascii h true x),
)

abbrev rows : Hex → List Text → Text
rows h xs = concat (map (λ x. row h x ++ h.eol) xs)

module _ (h : Hex) (last : Text) (some_byte : 0 < length last)
    (fits : length last ≤ h.bytes_per_line) where
  lines_from-last :
      (before : Text) (rounds : ℕ)
      → lines_from h true (before ++ last) (suc (suc rounds)) (length before) ≡ some (row h last)
  unfolding lines_from
  lines_from-last before rounds =
      ground (arith, length-append before last, line-last h before last, append-nil (row h last))

  lines_from-cons :
      (before x rest out : Text) (rounds : ℕ)
      → length x ≡ h.bytes_per_line
      → 0 < length rest
      → lines_from h true (before ++ (x ++ rest)) rounds (length before + h.bytes_per_line)
        ≡ some out
      → 0 < h.bytes_per_line
      → lines_from h true (before ++ (x ++ rest)) (suc rounds) (length before)
        ≡ some ((row h x ++ h.eol) ++ out)
  unfolding lines_from
  lines_from-cons before x rest out rounds e r next p =
      ground (
        arith,
        length-append before (x ++ rest),
        length-append x rest,
        line-full h before x rest e r,
      )

  lines_from-rows :
      (before : Text) (full : List Text) (rounds : ℕ)
      → 0 < h.bytes_per_line
      → AllFull h full
      → length full + 2 ≤ rounds
      → lines_from h true (before ++ (concat full ++ last)) rounds (length before)
        ≡ some (rows h full ++ row h last)
  lines_from-rows before full zero p f e = absurd (omega arith)
  lines_from-rows before full (suc zero) p f e = absurd (omega arith)
  lines_from-rows before [] (suc (suc rounds)) p f e = lines_from-last before rounds
  lines_from-rows before (x ∷ xs) (suc (suc rounds)) p f e =
      let rest = concat xs ++ last in
      let next = lines_from-rows (before ++ x) xs (suc rounds) p f.1 (omega arith) in
      let next' : lines_from h true (before ++ (x ++ rest)) (suc rounds)
            (length before + h.bytes_per_line)
          ≡ some (rows h xs ++ row h last) =
        rw (append_assoc before x rest, length-append before x, f.0) at next in
      ap (λ t. lines_from h true (before ++ t) (suc (suc rounds)) (length before))
        (append_assoc x (concat xs) last)
      ∙ lines_from-cons before x rest (rows h xs ++ row h last) (suc rounds) f.0
          (omega (arith, length-append (concat xs) last)) next' p
      ∙ ap some (sym (append_assoc (row h x ++ h.eol) (rows h xs) (row h last)))

length-concat :
    (h : Hex) (full : List Text)
    → 0 < h.bytes_per_line
    → AllFull h full
    → length full ≤ length (concat full)
length-concat h [] p f = omega arith
length-concat h (x ∷ xs) p f =
    omega (arith, length-append x (concat xs), length-concat h xs p f.1, f.0)

-- For a line of at least one byte, and a text of some full lines and a last one, neither empty nor
-- longer than a line: `lines` in an active hex mode ends, and gives a row for each of these
-- lines, with an end of line behind each but the last.
pub lines-rows :
    (h : Hex) (full : List Text) (last : Text)
    → 0 < h.bytes_per_line
    → AllFull h full
    → 0 < length last
    → length last ≤ h.bytes_per_line
    → lines h true (concat full ++ last)
      ≡ some (concat (map (λ x. row h x ++ h.eol) full) ++ row h last)
unfolding lines
lines-rows h full last positive f some_byte fits =
    lines_from-rows h last some_byte fits [] full (suc (length (concat full ++ last))) positive f
      (omega (arith, length-append (concat full) last, length-concat h full positive f))

lines_from-total :
    (h : Hex) (active : Bool) (text : Text) (rounds offset : ℕ)
    → 0 < h.bytes_per_line
    → length text - offset < rounds
    → (out : Text) × (lines_from h active text rounds offset ≡ some out)
unfolding lines_from
lines_from-total h active text zero offset p e = absurd (omega arith)
lines_from-total h active text (suc rounds) offset p e =
    elim (Bool-cases (ltb offset (length text))) [
      | inr b ↦ ([], ground arith)
      | inl b ↦
          let (rest, q) =
            lines_from-total h active text rounds (offset + h.bytes_per_line) p (ground arith) in
          (line h active text offset ++ rest, ground arith)
    ]

-- For a line of at least one byte, `lines` ends.
pub lines-total :
    (h : Hex) (active : Bool) (text : Text)
    → 0 < h.bytes_per_line
    → (out : Text) × (lines h active text ≡ some out)
unfolding lines
lines-total h true text p = lines_from-total h true text (suc (length text)) 0 p (omega arith)
lines-total h false text p = ([], refl)
