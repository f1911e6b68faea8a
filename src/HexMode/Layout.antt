-- ===== src/HexMode/Layout.antt =====
-- The text that hex mode shows for a buffer (src/factory/hexmode.cpp: line, lines, printable). The
-- loop of `lines` is on fuel; with no bytes on a line it does not end, which is `none`.
pub mod Rows
use wx_extension.Prelude.{
  ◌>>=◌, ℕ, zero, suc, ◌+◌, ◌-◌, ◌*◌, Bool, true, false, not, ◌&&◌, ◌||◌, Option, none, some, [],
  ◌∷◌, ◌++◌, Text, length, take, drop, replicate, ltb, ◌==◌, if◌then◌else◌, space,
}

-- `hex` is boost::algorithm::hex of one byte, `symbol` and `eol` are those of the component.
pub record Hex : Type 0 where
  pub bytes_per_line : ℕ
  pub hex : ℕ → Text
  pub symbol : ℕ
  pub eol : Text

abbrev pub each_hex_field : ℕ
each_hex_field = 3

abbrev pub is_control : ℕ → Bool
is_control c = ltb c 32 || c == 127

unfoldable pub printable : Hex → Bool → ℕ → ℕ
printable h active c =
    if (ltb c 128 && not (is_control c)) || not active
    then c
    else if h.symbol == 0
    then b'.'
    else h.symbol

-- What the loop of `line` puts into its two streams.
abbrev pub field_hex : Hex → Text → Text
field_hex h [] = []
field_hex h (c ∷ bytes) = h.hex c ++ space ∷ field_hex h bytes

abbrev pub field_ascii : Hex → Bool → Text → Text
field_ascii h active [] = []
field_ascii h active (c ∷ bytes) = printable h active c ∷ field_ascii h active bytes

unfoldable pub line : Hex → Bool → Text → ℕ → Text
line h active text offset =
    let left = length text - offset in
    let count = if ltb h.bytes_per_line left then h.bytes_per_line else left in
    let bytes = take count (drop offset text) in
    field_hex h bytes
    ++ (replicate ((h.bytes_per_line - count) * each_hex_field) space
        ++ (field_ascii h active bytes ++ (if ltb h.bytes_per_line left then h.eol else [])))

unfoldable pub lines_from : Hex → Bool → Text → ℕ → ℕ → Option Text
lines_from h active text zero offset = none
lines_from h active text (suc rounds) offset = elim (ltb offset (length text)) [
  | false ↦ some []
  | true ↦ (do
    rest ← lines_from h active text rounds (offset + h.bytes_per_line)
    some (line h active text offset ++ rest))
]

unfoldable pub lines : Hex → Bool → Text → Option Text
lines h active text = if active then lines_from h active text (suc (length text)) 0 else some []
