-- ===== src/Ex/Tests.antt =====
-- The ex component at a few inputs (src/vi/ex.cpp, src/vi/util.cpp).
use wx_extension.Prelude.{
  ◌≡◌, [], ◌∷◌, refl, ◌==◌, if◌then◌else◌, true, false, none, some, List, Text,
}
use wx_extension.Macros.Registers.{Registers}
use wx_extension.Ex.Expansion.{Source, marker_and_register_expansion}
use wx_extension.Ex.Expansion.Laws.{
  Piece, char, marker, register, source, meaning, marker_and_register_expansion-meaning,
}
use wx_extension.Ex.Command.{Host}

abbrev registers : Registers
registers = record { macros = λ k. if k == b'2' then (b'x' ∷ []) ∷ [] else []; clipboard = [] }

abbrev deleted : Text
deleted = b'd' ∷ []

-- The marker `x` is on the fourth line; no other marker is set.
abbrev surroundings : Source
surroundings = record {
  marker_line = λ m. if m == b'x' then some 3 else none;
  registers = registers;
  filename = b'f' ∷ [];
}

abbrev pieces : List Piece
pieces = char b'a' ∷ marker b'x' ∷ register b'2' ∷ register b'%' ∷ marker b'y' ∷ []

marker_and_register_expansion-meaning_example :
    marker_and_register_expansion surroundings (source pieces) ≡ some (meaning surroundings pieces)
marker_and_register_expansion-meaning_example =
    marker_and_register_expansion-meaning surroundings pieces refl

-- All that runs keeps the last text that a handler was given.
abbrev host : Host Text
host = record {
  is_off = λ w. false;
  map_of = λ w. [];
  exec_ex_command = λ t w. (w, false);
  show_ex_command = λ t w. (w, true);
  handler = λ n t w. (t, true);
  parse = λ t w. (w, none);
  parse_one = λ p w. (w, false);
  parse_range = λ p w. ((w, false), false);
  info_message = λ w. w;
  record_command = λ t w. w;
  clear_command = λ w. w;
  auto_write = λ w. w;
}

abbrev set_name : Text
set_name = b':' ∷ b's' ∷ b'e' ∷ b't' ∷ []
