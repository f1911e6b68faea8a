-- ===== src/FileSearch.antt =====
-- Finding and replacing in a file (src/common/stream.cpp: class stream). The regular expressions,
-- the message box and the event for a match are parameters; statistics are the number of actions. A
-- line is a text, as std::getline gives it.
pub mod Laws
mod Tests
use wx_extension.Prelude.{
  ℕ, zero, suc, ◌+◌, ◌-◌, Bool, true, false, not, ◌&&◌, ◌||◌, Option, none, some, List, [], ◌∷◌,
  ◌++◌, map, Text, length, take, drop, get_or, if◌then◌else◌, ◌==◌, ltb, is_lower, is_alnum,
  newline,
}
use wx_extension.Core.Text.{is_empty}
use wx_extension.Prelude.{is_prefix}

pub data Tool : Type 0 where
  report_find replace other : Tool

-- regex_search and regex_replace: those of find_replace_data. ask: whether the user goes on.
pub record Settings : Type 0 where
  pub tool : Tool
  pub find_string : Text
  pub replace_string : Text
  pub is_regex : Bool
  pub match_case : Bool
  pub match_word : Bool
  pub threshold : Option ℕ
  pub regex_search : Text → Option ℕ
  pub regex_replace : Text → Text × ℕ
  pub ask : Bool

-- `reported` has the line number and the position of each match.
pub record Search : Type 0 where
  pub modified : Bool
  pub asked : Bool
  pub actions : ℕ
  pub previous : ℕ
  pub reported : List (ℕ × ℕ)

-- text.find(u), and std::search
unfoldable pub find_text : Text → Text → Option ℕ
find_text u [] = if is_empty u then some 0 else none
find_text u (c ∷ t) =
    if is_prefix u (c ∷ t)
    then some 0
    else (elim (find_text u t) [ none ↦ none | some i ↦ some (suc i) ])

-- a replacement, and what comes of the rest
abbrev pub replaced_before : Text → Text → Option (Text × ℕ) → Option (Text × ℕ)
replaced_before t r none = none
replaced_before t r (some (rest, k)) = some (t ++ (r ++ rest), suc k)

-- The loop of replace_all, on what is behind the position: the text and the count. `none` means
-- that the fuel ran out.
unfoldable pub replace_from : ℕ → Text → Text → Text → Option (Text × ℕ)
replace_from zero u r t = none
replace_from (suc n) u r t = elim (find_text u t) [
  | none ↦ some (t, 0)
  | some i ↦ replaced_before (take i t) r (replace_from n u r (drop (length u) (drop i t)))
]

-- Each round takes a char at least where the text that is searched is not empty, which
-- process_begin sees to.
unfoldable pub replace_all : Text → Text → Text → Option (Text × ℕ)
unfolding replace_from
replace_all u r t = replace_from (suc (length t)) u r t

abbrev to_upper : ℕ → ℕ
to_upper c = if is_lower c then c - 32 else c

abbrev is_word_character : ℕ → Bool
is_word_character c = is_alnum c || c == b'_'

-- The char behind the last one is 0.
unfoldable pub is_whole_word : Text → ℕ → ℕ → Bool
is_whole_word t i n =
    not (
      (ltb 0 i && is_word_character (get_or t (i - 1) 0)) || is_word_character (get_or t (i + n) 0))

module _ (f : Settings) where
  abbrev is_replace : Bool
  is_replace = elim f.tool [ replace ↦ true | _ ↦ false ]

  abbrev is_report : Bool
  is_report = elim f.tool [ report_find ↦ true | _ ↦ false ]

  -- m_find_string, as process_begin sets it
  abbrev searched : Text
  searched = if f.match_case then f.find_string else map to_upper f.find_string

  -- the position of a match, if there is one
  unfoldable pub find_match : Text → Option ℕ
  unfolding find_text is_whole_word
  find_match t = elim (find_text searched (if f.match_case then t else map to_upper t)) [
    | none ↦ none
    | some i ↦ if f.match_word && not (is_whole_word t i (length searched)) then none else some i
  ]

  -- What is done to a line: the line, whether there is a match, its position, and the count.
  unfoldable pub match_line : Text → Option (Text × Bool × ℕ × ℕ)
  unfolding find_match replace_all
  match_line t =
      if f.is_regex
      then (elim (f.regex_search t) [
        | none ↦ some (t, false, 0, 1)
        | some i ↦
            if is_replace
            then some ((f.regex_replace t).0, true, i, (f.regex_replace t).1)
            else some (t, true, i, 1)
      ])
      else if is_report
      then some (elim (find_match t) [ none ↦ (t, false, 0, 1) | some i ↦ (t, true, i, 1) ])
      else (elim (replace_all f.find_string f.replace_string t) [
        | none ↦ none
        | some (u, k) ↦
            some (u, ltb 0 k, elim (find_text f.find_string t) [ none ↦ 0 | some i ↦ i ], k)
      ])

  -- the actions and the question behind a match
  unfoldable pub count_match : ℕ → Search → Search × Bool
  count_match k s =
      let w = record s { actions = s.actions + k } in
      let many : Bool = elim f.threshold [
        | none ↦ false
        | some m ↦ ltb m (w.actions - s.previous)
      ] in
      if not s.asked && many
      then (if f.ask then (record w { asked = true }, true) else (w, false))
      else (w, true)

  -- process(text, line_no): the line behind it, and whether to go on
  unfoldable pub process : Text → ℕ → Search → Option (Text × Search × Bool)
  unfolding match_line count_match
  process t n s = elim (match_line t) [
    | none ↦ none
    | some (u, matched, i, k) ↦
        if not matched
        then some (u, s, true)
        else (let changes = if f.is_regex then is_replace && ltb 0 k else not is_report in
            let w = record s {
              modified = s.modified || changes;
              reported = if is_report then s.reported ++ (n, i) ∷ [] else s.reported;
            } in
            let r = count_match k w in some (u, r.0, r.1))
  ]

  -- the loop of run_tool: the lines that are written, and whether all were processed
  unfoldable pub process_lines : List Text → ℕ → Search → Option (Text × Search × Bool)
  unfolding process
  process_lines [] n s = some ([], s, true)
  process_lines (t ∷ ts) n s = elim (process t n s) [
    | none ↦ none
    | some (u, w, more) ↦
        let rest = process_lines ts (suc n) w in
        if not more then some ([], w, false) else (elim rest [
          | none ↦ none
          | some (v, z, all) ↦ some ((if is_replace then u ++ newline ∷ v else v), z, all)
        ])
  ]

  -- process_begin, for a file that may be read only
  unfoldable pub process_begin : Bool → Bool
  process_begin readonly =
      not (is_empty f.find_string)
      && (elim f.tool [ other ↦ false | _ ↦ true ] && not (is_replace && readonly))

  -- run_tool, on a stream with m_modified and a number of actions: the result, and what the file is
  -- written with if it is written. m_modified is not reset.
  unfoldable pub run_tool : Bool → List Text → Bool → ℕ → Option (Bool × Option Text × Search)
  unfolding process_begin
  run_tool readonly lines modified actions =
      let start : Search = record {
        modified = modified;
        asked = false;
        actions = actions;
        previous = actions;
        reported = [];
      } in
      if not (process_begin readonly)
      then some (false, none, start)
      else (elim (process_lines lines 0 start) [
        | none ↦ none
        | some (v, s, all) ↦
            if not all || (is_replace && is_empty v)
            then some (false, none, s)
            else some (true, if s.modified && is_replace then some v else none, s)
      ])
