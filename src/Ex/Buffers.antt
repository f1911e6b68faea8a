-- ===== src/Ex/Buffers.antt =====
-- The registers that ex writes to (src/vi/ex.cpp: set_registers_delete, set_register_insert,
-- set_register_yank, register_text, register_insert, yank, cut). The selected text is an argument.
pub mod Laws
use wx_extension.Prelude.{ℕ, zero, suc, ◌+◌, ◌-◌, Bool, true, false, not, Text, if◌then◌else◌, ◌==◌}
use wx_extension.Core.Text.{is_empty}
use wx_extension.Macros.Registers.{Registers, get_register, set_register}

-- The char of the register with the number `i`.
abbrev pub digit : ℕ → ℕ
digit i = 48 + i

-- One round of the loop: register i - 1 to i, if it is not empty.
unfoldable pub shift : ℕ → Registers → Registers
shift i r =
    if not (is_empty (get_register (digit (i - 1)) r))
    then (set_register (digit i) (get_register (digit (i - 1)) r) r).0
    else r

-- The rounds for i, i - 1, and on to 2.
unfoldable pub shift_from : ℕ → Registers → Registers
unfolding shift
shift_from zero r = r
shift_from (suc zero) r = r
shift_from (suc (suc i)) r = shift_from (suc i) (shift (suc (suc i)) r)

unfoldable pub set_registers_delete : Text → Registers → Registers
unfolding shift_from
set_registers_delete value r =
    if is_empty value then r else (set_register b'1' value (shift_from 9 r)).0

unfoldable pub set_register_insert : Text → Registers → Registers
set_register_insert value r = (set_register b'.' value r).0

unfoldable pub set_register_yank : Text → Registers → Registers
set_register_yank value r = (set_register b'0' value r).0

unfoldable pub register_insert : Registers → Text
register_insert r = get_register b'.' r

-- m_register: 0 where no register is chosen
unfoldable pub register_text : ℕ → Registers → Text
register_text m_register r =
    if not (m_register == 0) then get_register m_register r else get_register b'0' r

unfoldable pub yank_selection : ℕ → ℕ → Text → Registers → Registers × Bool
unfolding set_register_yank
yank_selection m_register name range r =
    if is_empty range
    then (r, false)
    else if not (m_register == 0)
    then ((set_register m_register range r).0, true)
    else if not (name == b'0')
    then ((set_register name range r).0, true)
    else (set_register_yank range r, true)

-- The selection is then replaced by the empty text.
unfoldable pub cut : ℕ → Text → Registers → Registers
unfolding yank_selection set_registers_delete
cut m_register selection r =
    set_registers_delete selection (yank_selection m_register b'0' selection r).0
