-- ===== src/Substitute/Tests.antt =====
-- Substitutions that are read (src/data/substitute.cpp).
use wx_extension.Prelude.{◌≡◌, true, false, [], ◌∷◌, refl, eq_text}
use wx_extension.Substitute.{
  Substitute, set, groups, groups_three, groups_two, take_groups, set_global,
}
use wx_extension.Substitute.Laws.{written, set-written}

abbrev none_yet : Substitute
none_yet = record { commands = []; options = []; pattern = []; replacement = [] }

-- a/b for c/, with the option g
set-written_example :
    set (written (b'a' ∷ b'/' ∷ b'b' ∷ []) (b'c' ∷ b'/' ∷ []) (b'g' ∷ [])) none_yet ≡ (
      record none_yet {
        pattern = b'a' ∷ b'/' ∷ b'b' ∷ [];
        replacement = b'c' ∷ b'/' ∷ [];
        options = b'g' ∷ [];
      },
      true,
    )
unfolding eq_text
set-written_example =
    set-written (b'a' ∷ b'/' ∷ b'b' ∷ []) (b'c' ∷ b'/' ∷ []) (b'g' ∷ []) none_yet refl refl refl
      refl refl refl

-- Without options the ones of before stay.
options_kept :
    set (b'/' ∷ b'a' ∷ b'/' ∷ b'b' ∷ []) (record none_yet { options = b'g' ∷ [] })
    ≡ (record none_yet { options = b'g' ∷ []; pattern = b'a' ∷ []; replacement = b'b' ∷ [] }, true)
unfolding set groups groups_three groups_two take_groups eq_text
options_kept = refl

-- A global command with no pattern is refused where it has a command.
global_refused :
    set_global (b' ' ∷ b'/' ∷ b'/' ∷ b'd' ∷ []) none_yet
    ≡ (record none_yet { commands = b'd' ∷ [] }, false)
unfolding set_global
global_refused = refl
