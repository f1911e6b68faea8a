-- ===== src/Vi/Laws/Expand.antt =====
-- Registers and markers typed in insert mode (src/vi/vi.cpp: insert_mode, with
-- marker_and_register_expansion of src/vi/util.cpp).
use wx_extension.Prelude.{true, false, ◌&&◌, Text, length, ltb, get_or, ◌==◌, ◌≡◌}
use wx_extension.Core.Text.{contains}
use wx_extension.Prelude.{is_prefix}
use wx_extension.Vi.Component.{Vi}
use wx_extension.Vi.Motions.{control_r}
use wx_extension.Vi.Insert.{calc_key}

-- A typed text with a register or a marker in it, that is no calculation and no control char.
abbrev pub IsExpanded : Text → Type 0
IsExpanded t =
    (contains control_r t ≡ true)
    × (is_prefix calc_key t ≡ false)
    × ((length t == 2 && get_or t 1 0 == 0) ≡ false)
    × (ltb (length t) 2 ≡ false)
