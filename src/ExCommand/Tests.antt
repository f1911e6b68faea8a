-- ===== src/ExCommand/Tests.antt =====
-- Keys in the entry of an ex command (src/factory/ex-command.cpp).
use wx_extension.Prelude.{ℕ, Bool, true, false, none, some, List, [], ◌∷◌, ◌≡◌, refl, arith}
use wx_extension.ExCommand.{ExCommand, Entry, cut, back, typed, handle, command_type, CommandType}
use wx_extension.ExCommand.Laws.{
  Action, press, move, select, all_handled, all_acted, IsShown, all_handled-IsShown, all_allowed,
  keyed,
}

abbrev colon : ExCommand
colon = record { text = b':' ∷ []; has_type = true; stc = none; stc_original = none }

abbrev empty_entry : Entry
empty_entry = record { value = []; point = 0; selected = none }

abbrev no : ℕ → Bool
no n = false

-- a, b, back to between them, c, a backspace, d, a cut of the first two, and e over what is left
abbrev keys : List Action
keys =
    press (typed b'a')
    ∷ press (typed b'b')
    ∷ move 1
    ∷ press (typed b'c')
    ∷ press back
    ∷ press (typed b'd')
    ∷ select 0 2
    ∷ press cut
    ∷ select 0 1
    ∷ press (typed b'e')
    ∷ []

all_handled-IsShown_example :
    (d : ExCommand) × (all_handled no no (keyed keys) empty_entry colon ≡ some d)
    × IsShown (b':' ∷ []) (all_acted (keyed keys) empty_entry) d
unfolding all_allowed
all_handled-IsShown_example =
    all_handled-IsShown no no (b':' ∷ []) keys empty_entry colon refl refl (record {
      typed_text = refl;
      text_lem = refl;
      valid = record { point_bound = omega arith; selected_bound = λ a b q. cc };
    })

-- A backspace on a selection of all three chars takes the last one off the command only.
selection_deleted :
    handle no no
      (record { value = b'a' ∷ b'b' ∷ b'c' ∷ []; point = 3; selected = some (0, 3) })
      back
      (record colon { text = b':' ∷ b'a' ∷ b'b' ∷ b'c' ∷ [] })
    ≡ some (record colon { text = b':' ∷ b'a' ∷ b'b' ∷ [] })
unfolding handle
selection_deleted = refl

-- A backspace in an empty entry takes the type off the command.
type_deleted : handle no no empty_entry back colon ≡ some (record colon { text = [] })
unfolding handle
type_deleted = refl

-- A char that is typed inside a command without a type is dropped.
untyped_insert :
    handle no no
      (record { value = b'a' ∷ b'b' ∷ []; point = 1; selected = none })
      (typed b'c')
      (record colon { text = b'a' ∷ b'b' ∷ []; has_type = false })
    ≡ some (record colon { text = b'a' ∷ b'b' ∷ []; has_type = false })
unfolding handle
untyped_insert = refl

calc_type : command_type no no (record colon { text = 18 ∷ b'=' ∷ b'1' ∷ [] }) ≡ CommandType.calc
unfolding command_type
calc_type = refl
