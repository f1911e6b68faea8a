-- ===== src/HexMode/Target.antt =====
-- The commands of class hexmode on a position or a target (src/stc/hexmode.cpp: erase, insert,
-- replace, highlight_other, replace_target). A View is what the component answers at one time;
-- where a command asks between changes, its view is a function of what was told so far. A position
-- that is not given is `none`.
pub mod Laws
use wx_extension.Prelude.{
  ℕ, ◌+◌, ◌-◌, ◌*◌, ◌/◌, ◌%◌, Bool, true, false, not, ◌&&◌, ◌||◌, Option, none, some, List, [], ◌∷◌,
  Text, length, ltb, leb, ◌==◌, if◌then◌else◌, ◌>>=◌, is_digit,
}
use wx_extension.HexMode.Layout.{Hex, each_hex_field}
use wx_extension.HexMode.Fields.{HexLine, at_position, other_field}
use wx_extension.HexMode.Buffer.{HexState, Effect, tell, brace_highlight, set_target_end}
use wx_extension.HexMode.Edit.{Component, erase, insert, replace, replace_code}

pub record View : Type 0 where
  pub component : Component
  pub get_line : ℕ → Text
  pub get_column : ℕ → ℕ
  pub current_line : ℕ
  pub current_text : Text
  pub target_start : Option ℕ
  pub target_end : Option ℕ

module _ (h : Hex) where
  -- The constructor from the current position and line.
  unfoldable pub current : View → HexLine
  current v = record {
    text = v.current_text;
    line_no = v.current_line;
    column_no = v.get_column (v.component).current_pos;
  }

  unfoldable pub line_at : View → ℕ → HexLine
  line_at v p = at_position h v.get_line ((v.component).line_from_position p) (v.get_column p)

  unfoldable pub chosen : View → Option ℕ → HexLine
  unfolding current line_at
  chosen v none = current v
  chosen v (some p) = line_at v p

  unfoldable pub erase_at : View → ℕ → Option ℕ → HexState → Option (Bool × HexState)
  erase_at v count p s = erase h count true (chosen v p) s

  unfoldable pub insert_at : View → Text → Option ℕ → HexState → Option (Bool × HexState)
  insert_at v text p s = insert h v.component text (chosen v p) s

  unfoldable pub replace_at : View → ℕ → Option ℕ → HexState → Option (Bool × HexState)
  replace_at v c p s = replace h v.component c (chosen v p) s

  -- highlight_other(pos)
  unfoldable pub highlight_at : View → ℕ → HexState → Bool × HexState
  unfolding line_at
  highlight_at v p s = elim (other_field h (line_at v p)) [
    | some other ↦ (
      true,
      tell
          (brace_highlight (
              some
                (p, (v.component).position_from_line ((v.component).line_from_position p) + other))
            ∷ [])
          s,
    )
    | none ↦ (false, tell (brace_highlight none ∷ []) s)
  ]

  -- highlight_other(), which gives the position as a line to PositionFromLine.
  unfoldable pub highlight_other : View → HexState → Bool × HexState
  unfolding highlight_at
  highlight_other v s =
      let p = (v.component).current_pos in
      let r = highlight_at v p s in
      if r.0
      then r
      else if not ((v.component).position_from_line p == p)
      then highlight_at v (p - 1) r.1
      else r

  abbrev pub is_code_char : ℕ → Bool
  is_code_char c = is_digit c || (leb b'A' c && leb c b'F')

  abbrev pub are_code_chars : Text → Bool
  are_code_chars [] = true
  are_code_chars (c ∷ t) = is_code_char c && are_code_chars t

  -- The loop of replace_target: where it ends, and the state. The codes are put over the bytes up
  -- to the end of the target, and inserted behind it.
  unfoldable pub put_codes :
      (List Effect → View) → Bool → Text → ℕ → HexState → Option (ℕ × HexState)
  unfolding line_at
  put_codes view settext (c ∷ d ∷ t) start s =
      let v = view s.effects in
      v.target_end >>= λ stop.
      (if leb start stop
        then replace_code h c d settext (line_at v start) s
        else (insert h v.component (c ∷ d ∷ []) (line_at v start) s >>= λ r. some r.1))
      >>= λ s'. put_codes view settext t (start + each_hex_field) s'
  put_codes view settext _ start s = some (start, s)

  -- What is left of the target behind the codes is erased.
  unfoldable pub erase_rest : (List Effect → View) → Bool → ℕ → HexState → Option HexState
  unfolding line_at
  erase_rest view settext start s =
      let v = view s.effects in
      v.target_end >>= λ stop.
      if ltb start stop
      then (erase h ((stop - start) / each_hex_field) settext (line_at v start) s >>= λ r. some r.1)
      else some s

  abbrev pub is_target : View → Text → Bool
  is_target v t = elim v.target_start [
    | none ↦ false
    | some start ↦ elim v.target_end [
      | none ↦ false
      | some stop ↦ ltb start stop && (length t % 2 == 0) && are_code_chars t
    ]
  ]

  unfoldable pub replace_target :
      (List Effect → View) → Text → Bool → HexState → Option (Bool × HexState)
  unfolding put_codes erase_rest
  replace_target view t settext s =
      if not (is_target (view s.effects) t) then some (false, s) else (do
        start ← (view s.effects).target_start
        r ← put_codes view settext t start s
        s₂ ← erase_rest view settext r.0 r.1
        first ← (view s₂.effects).target_start
        some (true, tell (set_target_end (first + length t * each_hex_field) ∷ []) s₂))
