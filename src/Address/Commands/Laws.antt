-- ===== src/Address/Commands/Laws.antt =====
-- What the commands of an address do where it has no line (src/vi/address.cpp).
use wx_extension.Prelude.{
  ℕ, Bool, true, false, ◌&&◌, ◌||◌, [], ◌∷◌, Text, ◌==◌, pos, leb_ℤ, ◌≡◌, arith,
}
use wx_extension.Core.Text.{contains}
use wx_extension.Address.Line.{Address, get_line}
use wx_extension.Address.Commands.{
  Component, append_at, insert_before, marker_add_at, put, read, write_line_number, parse_address,
}

-- The commands that need a line: append and insert with their text, a mark, put, read and '='.
unfoldable pub needs_line : ℕ → Text → Bool
needs_line c t =
    ((c == b'a' || c == b'i') && contains b'|' t)
    || (c == b'k' || (c == b'p' || (c == b'r' || c == b'=')))

-- In a visual component, each command that needs a line (append or insert with their text behind a
-- '|', a mark, put, read, and the line number) returns false where the line of the address is not
-- positive, and then leaves the component as it was.
pub parse_address-no_line :
    {E : Type 0} (x : Component E) (c : ℕ) (more t : Text) (a : Address) (e : E)
    → x.view.is_visual e ≡ true
    → leb_ℤ (get_line x.view a e) (pos 0) ≡ true
    → needs_line c t ≡ true
    → parse_address x (c ∷ more) t a e ≡ (e, false)
unfolding parse_address append_at insert_before marker_add_at put read write_line_number needs_line
parse_address-no_line x c more [] a e v l n = ground arith
parse_address-no_line x c more (d ∷ t) a e v l n = ground arith
