-- ===== src/Substitute.antt =====
-- A substitution (src/data/substitute.cpp, include/wex/data/substitute.h): its pattern, replacement
-- and options, read from the text of an ex command. The regular expressions are fixed ones, so what
-- they match is written out: a dot is no line end, so a match stands in one line of the text.
pub mod Laws
mod Tests
use wx_extension.Prelude.{
  ℕ, Bool, true, false, not, ◌&&◌, ◌||◌, Option, none, some, List, [], ◌∷◌, map, Text, length,
  get_or, eq_text, if◌then◌else◌, ◌==◌, ltb, newline, contains_text,
}
use wx_extension.Core.Text.{is_empty, contains, isspace}

pub record Substitute : Type 0 where
  pub commands : Text
  pub options : Text
  pub pattern : Text
  pub replacement : Text

unfoldable pub is_confirmed : Substitute → Bool
is_confirmed s = contains b'c' s.options

unfoldable pub is_global : Substitute → Bool
is_global s = contains b'g' s.options

unfoldable pub is_ignore_case : Substitute → Bool
is_ignore_case s = contains b'i' s.options

abbrev pub backslash : ℕ
backslash = 92

-- the char that stands for an escaped slash
abbrev pub hidden : ℕ
hidden = 1

abbrev pub escaped_slash : Text
escaped_slash = backslash ∷ b'/' ∷ []

-- replace_all of an escaped slash by the hidden char
unfoldable pub hide : Text → Text
hide [] = []
hide (c ∷ []) = c ∷ []
hide (c ∷ d ∷ t) = elim (c == backslash && d == b'/') [
  | true ↦ hidden ∷ hide t
  | false ↦ c ∷ hide (d ∷ t)
]

-- std::replace of the hidden char by a slash
abbrev pub shown : ℕ → ℕ
shown c = if c == hidden then b'/' else c

abbrev pub is_line_end : ℕ → Bool
is_line_end c = c == newline || c == 13

-- The lines of a text.
unfoldable pub line_parts : Text → List Text
line_parts [] = [] ∷ []
line_parts (c ∷ t) = elim (line_parts t) [
  | [] ↦ []
  | l ∷ ls ↦ if is_line_end c then [] ∷ l ∷ ls else (c ∷ l) ∷ ls
]

-- What stands behind the first slash, and on both sides of the last one.
unfoldable pub behind_slash : Text → Option Text
behind_slash [] = none
behind_slash (c ∷ t) = let rest = behind_slash t in if c == b'/' then some t else rest

unfoldable pub around_slash : Text → Option (Text × Text)
around_slash [] = none
around_slash (c ∷ t) = elim (around_slash t) [
  | some (a, b) ↦ some (c ∷ a, b)
  | none ↦ if c == b'/' then some ([], t) else none
]

-- [cgi]*
unfoldable pub flags_of : Text → Text
flags_of [] = []
flags_of (c ∷ t) =
    let rest = c ∷ flags_of t in if contains c (b'c' ∷ b'g' ∷ b'i' ∷ []) then rest else []

-- The groups of /(.*)/(.*)/([cgi]*), of /(.*)/(.*) and of /(.*) in a line.
unfoldable pub groups_three : Text → Option (List Text)
unfolding behind_slash around_slash flags_of
groups_three l = elim (behind_slash l) [
  | none ↦ none
  | some r ↦ elim (around_slash r) [
    | none ↦ none
    | some (a, o) ↦ elim (around_slash a) [
      | none ↦ none
      | some (p, q) ↦ some (p ∷ q ∷ flags_of o ∷ [])
    ]
  ]
]

unfoldable pub groups_two : Text → Option (List Text)
unfolding behind_slash around_slash
groups_two l = elim (behind_slash l) [
  | none ↦ none
  | some r ↦ elim (around_slash r) [ none ↦ none | some (p, q) ↦ some (p ∷ q ∷ []) ]
]

unfoldable pub groups_one : Text → Option (List Text)
unfolding behind_slash
groups_one l = elim (behind_slash l) [ none ↦ none | some p ↦ some (p ∷ []) ]

-- the first line that matches
unfoldable pub search_lines : (Text → Option (List Text)) → List Text → Option (List Text)
search_lines f [] = none
search_lines f (l ∷ ls) = elim (f l) [ some g ↦ some g | none ↦ search_lines f ls ]

-- the first of the three that matches
unfoldable pub groups : Text → Option (List Text)
unfolding line_parts search_lines
groups t =
    let ls = line_parts t in
    elim (search_lines groups_three ls) [
      | some g ↦ some g
      | none ↦ elim (search_lines groups_two ls) [
        | some g ↦ some g
        | none ↦ search_lines groups_one ls
      ]
    ]

abbrev pub tilde : Text
tilde = b'~' ∷ []

unfoldable pub take_groups : List Text → Substitute → Substitute
take_groups gs s =
    let p = get_or gs 0 [] in
    let r = get_or gs 1 [] in
    record s {
      pattern = if not (is_empty p) && not (eq_text p tilde) then p else s.pattern;
      replacement =
          if ltb 1 (length gs) && (not (eq_text p tilde) && not (eq_text r tilde))
          then r
          else s.replacement;
      options = if ltb 2 (length gs) then get_or gs 2 [] else s.options;
    }

unfoldable pub set : Text → Substitute → Substitute × Bool
set t s =
    let escaped =
      not (contains_text (backslash ∷ escaped_slash) t) && contains_text escaped_slash t in
    if escaped && contains hidden t
    then (s, false)
    else elim (groups (if escaped then hide t else t)) [
      | none ↦ (s, false)
      | some gs ↦
          let u = take_groups gs s in
          (
            if escaped
                then record u {
                  pattern = map shown u.pattern;
                  replacement = map shown u.replacement;
                }
                else u,
            true,
          )
    ]

abbrev skip_space : Text → Text
skip_space [] = []
skip_space (c ∷ t) = if isspace c then skip_space t else c ∷ t

-- the parts on both sides of the first slash
unfoldable pub around_first : Text → Option (Text × Text)
around_first [] = none
around_first (c ∷ t) =
    let rest = around_first t in
    if c == b'/' then some ([], t) else elim rest [ none ↦ none | some (a, b) ↦ some (c ∷ a, b) ]

-- The groups of ^(\s*)/(.*?)/(.*) behind the first one, of a whole text.
unfoldable pub global_groups : Text → Option (Text × Text)
unfolding around_first
global_groups t = elim (skip_space t) [
  | [] ↦ none
  | c ∷ u ↦ if not (c == b'/') || contains newline u || contains 13 u then none else around_first u
]

unfoldable pub set_global : Text → Substitute → Substitute × Bool
unfolding global_groups
set_global t s = elim (global_groups t) [
  | none ↦ (s, false)
  | some (p, c) ↦ (record s { pattern = p; commands = c }, not (is_empty p && not (is_empty c)))
]

unfoldable pub set_options : Text → Substitute → Substitute
set_options t s = record s { options = t }
