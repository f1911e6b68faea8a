-- ===== src/Macros/Registers.antt =====
-- The registers (src/vi/macros.cpp: get_register, set_register). A register is the macro whose name
-- is its one letter, a list of commands; a missing entry of the map reads as the empty list. The
-- clipboard is the desktop's: its text is kept here as long as nobody else writes to it, and
-- `clipboard_add` (src/core/util.cpp) is modelled with a clipboard that is free and takes the text.
-- Saving to the macro file (save_macro) is not modelled.
pub mod Laws
use wx_extension.Prelude.{
  ℕ, Bool, true, false, not, ◌||◌, List, [], ◌∷◌, ◌++◌, Text, concat, ◌==◌, is_alnum, is_upper,
  to_lower, if◌then◌else◌,
}

pub record Registers : Type 0 where
  pub macros : ℕ → List Text
  pub clipboard : Text

-- An empty text is refused.
unfoldable pub clipboard_add : Text → Registers → Registers
clipboard_add [] r = r
clipboard_add (c ∷ t) r = record r { clipboard = c ∷ t }

unfoldable pub get_register : ℕ → Registers → Text
get_register name r = if name == b'*' || name == 34 then r.clipboard else concat (r.macros name)

abbrev pub is_register : ℕ → Bool
is_register name = is_alnum name || name == b'%' || name == b'_' || name == b'*' || name == b'.'

-- The commands that are stored under `name`; none under the black hole register.
unfoldable pub stored : ℕ → Text → Registers → List Text
unfolding get_register
stored name value r =
    if not (name == b'_')
    then (if is_upper name then (get_register (to_lower name) r ++ value) ∷ [] else value ∷ [])
    else []

unfoldable pub set_register : ℕ → Text → Registers → Registers × Bool
unfolding clipboard_add stored
set_register name value r =
    if not (is_register name)
    then (r, false)
    else if name == b'*'
    then (clipboard_add value r, true)
    else (
      record r { macros = λ k. if k == to_lower name then stored name value r else r.macros k },
      true,
    )
