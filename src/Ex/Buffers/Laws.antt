-- ===== src/Ex/Buffers/Laws.antt =====
-- What the numbered registers hold after a delete (src/vi/ex.cpp).
use wx_extension.Prelude.{
  ℕ, zero, suc, ◌-◌, ◌≤◌, ◌≢◌, false, ◌&&◌, Text, if◌then◌else◌, ◌==◌, leb, ◌≡◌, refl, arith,
  Bool-cases, inl, inr, Bool-cases, inl, inr,
}
use wx_extension.Core.Text.{is_empty}
use wx_extension.Macros.Registers.{Registers, get_register, set_register}
use wx_extension.Macros.Registers.Laws.{get_register-set_register}
use wx_extension.Ex.Buffers.{
  digit, shift, shift_from, set_registers_delete, register_text, yank_selection, set_register_yank,
}

-- What a register holds behind a shift from a register with the old contents `above` to one with
-- the old contents `own`.
abbrev pub moved : Text → Text → Text
moved above own = if is_empty above then own else above

set_digit :
    (i j : ℕ) (value : Text) (r : Registers)
    → i ≤ 9
    → j ≢ b'*'
    → j ≢ 34
    → get_register j (set_register (digit i) value r).0
      ≡ (if j == digit i then value else get_register j r)
set_digit i j value r h s q =
    ground (arith, get_register-set_register (digit i) j value r (ground arith) (omega arith) s q)

get_register-shift :
    (i j : ℕ) (r : Registers)
    → i ≤ 9
    → j ≢ b'*'
    → j ≢ 34
    → get_register j (shift i r) ≡ (
        if j == digit i
        then moved (get_register (digit (i - 1)) r) (get_register j r)
        else get_register j r)
unfolding shift
get_register-shift i j r h s q =
    ground (arith, set_digit i j (get_register (digit (i - 1)) r) r h s q)

get_register-shift_from :
    (i j : ℕ) (r : Registers)
    → i ≤ 9
    → j ≢ b'*'
    → j ≢ 34
    → get_register j (shift_from i r) ≡ (
        if leb b'2' j && leb j (digit i)
        then moved (get_register (j - 1) r) (get_register j r)
        else get_register j r)
unfolding shift_from
get_register-shift_from zero j r h s q = ground arith
get_register-shift_from (suc zero) j r h s q = ground arith
get_register-shift_from (suc (suc i)) j r h s q =
    let after = get_register-shift_from (suc i) j (shift (suc (suc i)) r) (omega arith) s q in
    let own = get_register-shift (suc (suc i)) j r h s q in
    elim (Bool-cases (leb b'2' j && leb j (digit (suc (suc i))))) [
      | inr out ↦ ground (arith, after, own)
      | inl in_range ↦ ground (
        arith,
        after,
        own,
        get_register-shift (suc (suc i)) (j - 1) r h (ground arith) (ground arith),
      )
    ]

-- A text that is deleted, not empty, goes to register 1. The registers 2 to 9 take the old contents
-- of the one before them, if it is not empty, and else keep their own; all registers but these nine
-- and the clipboard's keep what they held.
pub set_registers_delete-shift :
    (value : Text) (r : Registers) (j : ℕ)
    → is_empty value ≡ false
    → j ≢ b'*'
    → j ≢ 34
    → get_register j (set_registers_delete value r) ≡ (
        if j == b'1'
        then value
        else if leb b'2' j && leb j b'9'
        then moved (get_register (j - 1) r) (get_register j r)
        else get_register j r)
unfolding set_registers_delete
set_registers_delete-shift value r j e s q = ground (
  arith,
  set_digit 1 j value (shift_from 9 r) (omega arith) s q,
  get_register-shift_from 9 j r (omega arith) s q,
)

-- A cut of a text that is not empty, where no register is chosen, leaves it in register 0.
pub cut-register_text :
    (value : Text) (r : Registers)
    → is_empty value ≡ false
    → register_text 0 (set_registers_delete value (yank_selection 0 b'0' value r).0) ≡ value
unfolding register_text yank_selection set_register_yank
cut-register_text value r e = ground (
  arith,
  set_registers_delete-shift value (set_register b'0' value r).0 b'0' e (omega arith) (omega arith),
  get_register-set_register b'0' b'0' value r refl (omega arith) (omega arith) (omega arith),
)
