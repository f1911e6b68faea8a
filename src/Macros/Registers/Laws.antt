-- ===== src/Macros/Registers/Laws.antt =====
-- What a register holds after a write (src/vi/macros.cpp: get_register, set_register).
use wx_extension.Prelude.{
  ℕ, ◌≡◌, ◌≢◌, true, [], ◌++◌, arith, Text, ◌==◌, is_upper, to_lower, if◌then◌else◌, append-nil,
}
use wx_extension.Macros.Registers.{Registers, get_register, is_register, set_register}

-- What a write of `value` under `name` leaves in the register of `name`.
abbrev pub written : ℕ → Text → Registers → Text
written name value r =
    if name == b'_'
    then []
    else if is_upper name
    then get_register (to_lower name) r ++ value
    else value

-- A write under a name other than the clipboard's, read back under any name `j` that is not the
-- clipboard's: the name in lower case holds the value, appended to the old contents if the name is
-- upper case, and nothing if it is the black hole; all other registers keep their contents.
pub get_register-set_register :
    (name j : ℕ) (value : Text) (r : Registers)
    → is_register name ≡ true
    → name ≢ b'*'
    → j ≢ b'*'
    → j ≢ 34
    → get_register j (set_register name value r).0
      ≡ (if j == to_lower name then written name value r else get_register j r)
unfolding get_register set_register
get_register-set_register name j value r valid n hj hq =
    ground (arith, append-nil value, append-nil (get_register (to_lower name) r ++ value))
