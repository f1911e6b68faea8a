-- ===== src/Address/Range.antt =====
-- The ranges of ex commands: their constructors, set and is_ok (src/vi/addressrange.cpp).
pub mod Laws
use wx_extension.Prelude.{
  ℕ, ◌+◌, Bool, ◌&&◌, none, some, [], ◌∷◌, Text, if◌then◌else◌, ℤ, pos, leb_ℤ, ltb_ℤ, ◌+ℤ◌, ◌-ℤ◌,
  eq_text, take, drop,
}
use wx_extension.Core.Text.{find_char}
use wx_extension.Address.Line.{View, Address, address_of, get_line, set_line}

pub record Range : Type 0 where
  pub begin : Address
  pub end : Address

-- GetFirstVisibleLine and LinesOnScreen
pub record Screen (E : Type 0) : Type 0 where
  pub first_visible_line : E → ℕ
  pub lines_on_screen : E → ℕ

abbrev pub empty_range : Range
empty_range = record { begin = address_of []; end = address_of [] }

module _ {E : Type 0} where
  -- set(int, int)
  unfoldable pub set_lines : View E → ℤ → ℤ → Range → E → Range
  unfolding set_line
  set_lines v b n r e = record { begin = set_line v b r.begin e; end = set_line v n r.end e }

  -- m_address is set, and the line if there is one
  unfoldable pub set_address : View E → Text → Address → E → Address
  unfolding get_line set_line
  set_address v t a e =
      let a1 = record a { address = t } in
      let line = get_line v a1 e in if ltb_ℤ (pos 0) line then set_line v line a1 e else a1

  -- set(const std::string&, const std::string&)
  unfoldable pub set_texts : View E → Text → Text → Range → E → Range
  unfolding set_address
  set_texts v b n r e = record { begin = set_address v b r.begin e; end = set_address v n r.end e }

  -- set(address&, address&, int): the address of the current line, and the other one
  unfoldable pub set_from : View E → Address → Address → ℤ → E → Address × Address
  unfolding set_line get_line
  set_from v a b lines e =
      let a1 = set_line v (pos (v.line_from_position (v.current_pos e) e + 1)) a e in
      (a1, set_line v (get_line v a1 e +ℤ lines -ℤ pos 1) b e)

  -- addressrange(ex, lines)
  unfoldable pub range_of_lines : View E → ℤ → E → Range
  unfolding set_from
  range_of_lines v lines e =
      if ltb_ℤ (pos 0) lines
      then (let r = set_from v (address_of []) (address_of []) lines e in
          record { begin = r.0; end = r.1 })
      else if ltb_ℤ lines (pos 0)
      then (let r = set_from v (address_of []) (address_of []) lines e in
          record { begin = r.1; end = r.0 })
      else empty_range

  -- addressrange(ex, range)
  unfoldable pub range_of : View E → Screen E → Text → E → Range
  unfolding set_texts set_lines
  range_of v s t e =
      if eq_text t (b'%' ∷ [])
      then set_texts v (b'1' ∷ []) (b'$' ∷ []) empty_range e
      else if eq_text t (b'*' ∷ [])
      then set_lines v (pos (s.first_visible_line e + 1))
          (pos (s.first_visible_line e + s.lines_on_screen e + 1)) empty_range e
      else elim (find_char b',' t) [
        | some i ↦ set_texts v (take i t) (drop (i + 1) t) empty_range e
        | none ↦ set_texts v t t empty_range e
      ]

  unfoldable pub is_ok : View E → Range → E → Bool
  unfolding get_line
  is_ok v r e =
      ltb_ℤ (pos 0) (get_line v r.begin e)
      && (ltb_ℤ (pos 0) (get_line v r.end e) && leb_ℤ (get_line v r.begin e) (get_line v r.end e))
