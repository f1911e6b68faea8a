-- ===== src/HexMode/Tests.antt =====
-- Hex mode on lines of four bytes (src/factory/hexmode.cpp, src/stc/hexmode.cpp,
-- src/stc/hexmode-line.cpp).
use wx_extension.Prelude.{
  ℕ, zero, suc, ◌≤◌, ◌+◌, ◌*◌, ◌/◌, ◌%◌, ◌≡◌, true, false, none, some, [], ◌∷◌, ◌++◌, Text, take,
  drop, concat, map, arith, refl, ltb, if◌then◌else◌, newline,
}
use wx_extension.HexMode.Layout.{Hex, lines, printable}
use wx_extension.HexMode.Layout.Rows.{row, lines-rows}
use wx_extension.HexMode.Fields.{HexLine, is_readonly, is_ascii_field, is_hex_field, buffer_index}
use wx_extension.HexMode.Buffer.{
  HexState, set_mode, sync, shown, markers, styles, end_undo, clear_text, brace_highlight,
}
use wx_extension.HexMode.Buffer.Laws.{set_mode-round_trip}
use wx_extension.HexMode.Edit.{Component, insert, erase, replace, digit}
use wx_extension.HexMode.Fields.{at_position}
use wx_extension.HexMode.Target.{View, line_at}
use wx_extension.HexMode.Target.Laws.{Codes}
use wx_extension.HexMode.Edit.Laws.{erase-insert}
use wx_extension.HexMode.Edit.Replace.{replace-byte}

abbrev code : ℕ → ℕ
code n = if ltb n 10 then n + b'0' else n + 55

abbrev four : Hex
four = record {
  bytes_per_line = 4;
  hex = λ c. code (c / 16) ∷ code (c % 16) ∷ [];
  symbol = b'.';
  eol = newline ∷ [];
}

abbrev bytes : Text
bytes = b'0' ∷ b'1' ∷ b'2' ∷ b'3' ∷ []

lines-rows_example :
    lines four true (concat (bytes ∷ []) ++ b'4' ∷ newline ∷ [])
    ≡ some
        (concat (map (λ x. row four x ++ four.eol) (bytes ∷ [])) ++ row four (b'4' ∷ newline ∷ []))
lines-rows_example =
    lines-rows four (bytes ∷ []) (b'4' ∷ newline ∷ []) (omega arith) (refl, tt) (omega arith)
      (omega arith)

-- The first digit of the second byte, which is 31.
abbrev first_digit : HexLine
first_digit = record { text = row four bytes; line_no = 0; column_no = 3 }

abbrev second_char : HexLine
second_char = record { text = row four bytes; line_no = 0; column_no = 13 }

abbrev on : HexState
on = record { is_active = true; buffer = bytes; buffer_original = bytes; effects = [] }

abbrev off : HexState
off = record { is_active = false; buffer = []; buffer_original = []; effects = [] }

abbrev view : Component
view = record {
  position_from_line = λ n. n * 17;
  line_from_position = λ p. p / 17;
  current_pos = 13;
}

set_mode-round_trip_example :
    (s₁ : HexState) × (s₂ : HexState) × (s₃ : HexState) × (set_mode four true true false true bytes
        off
      ≡ some (true, s₁))
    × (s₁.buffer ≡ bytes)
    × (sync four s₁ ≡ some (true, s₂))
    × (s₂.buffer ≡ bytes)
    × (set_mode four true true false true bytes s₂ ≡ some (false, s₂))
    × (set_mode four false true true true bytes s₂ ≡ some (true, s₃))
    × (s₃.buffer ≡ bytes)
    × (s₃.effects
        ≡ s₂.effects
          ++ (markers false
              ∷ styles false
              ∷ end_undo
              ∷ clear_text
              ∷ shown bytes
              ∷ brace_highlight none
              ∷ markers true
              ∷ []))
    × (set_mode four false true false true bytes s₃ ≡ some (false, s₃))
set_mode-round_trip_example = set_mode-round_trip four true false bytes off (omega arith) refl

erase-insert_example :
    (s₁ : HexState) × (s₂ : HexState) × (insert four view (b'a' ∷ b'b' ∷ []) second_char on
      ≡ some (true, s₁))
    × (s₁.buffer ≡ take 1 bytes ++ (b'a' ∷ b'b' ∷ drop 1 bytes))
    × (erase four 2 true second_char s₁ ≡ some (true, s₂))
    × (s₂.buffer ≡ bytes)
unfolding is_ascii_field buffer_index
erase-insert_example =
    erase-insert four (omega arith) view (b'a' ∷ b'b' ∷ []) second_char on 1 refl refl refl
      (omega arith) (omega arith)

digit_replaced : (s' : HexState) × (replace four view b'A' first_digit on ≡ some (true, s'))
digit_replaced =
    let (s', e, _) =
      replace-byte four first_digit on 1 b'A' 10 3 (unfold digit in refl)
        (unfold digit printable in refl) (omega arith) view (unfold is_hex_field in refl)
        (unfold buffer_index in refl) in
    (s', e)

abbrev whole : View
whole = record {
  component = view;
  get_line = λ n. row four bytes;
  get_column = λ p. p;
  current_line = 0;
  current_text = row four bytes;
  target_start = some 3;
  target_end = some 6;
}

shows_column :
    (k : ℕ)
    → 3 + 3 * k ≤ 6
    → (buffer_index four (line_at four whole (3 + 3 * k)) ≡ some (1 + k))
      × (is_readonly four (line_at four whole (3 + 3 * k)) ≡ false)
unfolding buffer_index is_readonly line_at at_position
shows_column zero h = (refl, refl)
shows_column (suc zero) h = (refl, refl)
shows_column (suc (suc k)) h = absurd (omega arith)

four-Codes : Codes (b'4' ∷ b'1' ∷ b'4' ∷ b'2' ∷ []) (65 ∷ 66 ∷ [])
unfolding digit
four-Codes = (4, 1, refl, refl, refl, (4, 2, refl, refl, refl, tt))
