-- ===== src/FileSearch/Tests.antt =====
-- Replacing in a line and in a file (src/common/stream.cpp).
use wx_extension.Prelude.{
  ℕ, ◌+◌, true, false, ◌||◌, none, some, List, newline, [], ◌∷◌, Text, ltb, if◌then◌else◌, ◌≡◌,
  refl,
}
use wx_extension.FileSearch.{
  Settings, Tool, replace_all, replace_from, find_text, run_tool, process_lines, process,
  match_line, count_match, process_begin, find_match, is_whole_word,
}
use wx_extension.FileSearch.Laws.{IsReplaced, replace_all-IsReplaced}
use wx_extension.FileSearch.Laws.Files.{IsPlain, written, replacements, run_tool-written}

abbrev aa : Text
aa = b'a' ∷ b'a' ∷ []

-- aa in aaab
replace_all-IsReplaced_example :
    (result : Text) × (count : ℕ) × (replace_all aa (b'x' ∷ []) (b'a' ∷ b'a' ∷ b'a' ∷ b'b' ∷ [])
      ≡ some (result, count))
    × IsReplaced aa (b'x' ∷ []) (b'a' ∷ b'a' ∷ b'a' ∷ b'b' ∷ []) result count
replace_all-IsReplaced_example =
    replace_all-IsReplaced aa (b'x' ∷ []) (b'a' ∷ b'a' ∷ b'a' ∷ b'b' ∷ []) refl

replace_all_leftmost :
    replace_all aa (b'x' ∷ []) (b'a' ∷ b'a' ∷ b'a' ∷ b'b' ∷ []) ≡ some (b'x' ∷ b'a' ∷ b'b' ∷ [], 1)
unfolding replace_all replace_from find_text
replace_all_leftmost = refl

abbrev plain : Settings
plain = record {
  tool = Tool.replace;
  find_string = aa;
  replace_string = b'x' ∷ [];
  is_regex = false;
  match_case = true;
  match_word = false;
  threshold = none;
  regex_search = λ t. none;
  regex_replace = λ t. (t, 0);
  ask = false;
}

plain-IsPlain : IsPlain plain
plain-IsPlain = record { replaces = refl; no_regex = refl; no_threshold = refl; has_text = refl }

run_tool-written_example :
    (let k = replacements plain (aa ∷ [] ∷ []) in
      run_tool plain false (aa ∷ [] ∷ []) false 3
      ≡ some (
        true,
        (if false || ltb 0 k then some (written plain (aa ∷ [] ∷ [])) else none),
        record {
          modified = false || ltb 0 k;
          asked = false;
          actions = 3 + k;
          previous = 3;
          reported = [];
        },
      ))
run_tool-written_example = run_tool-written plain aa ([] ∷ []) false 3 plain-IsPlain

-- A second run, behind one that has replaced something, writes a file without a match.
abbrev unmatched : List Text
unmatched = (b'b' ∷ []) ∷ []

second_run :
    run_tool plain false unmatched true 1
    ≡ some (
      true,
      some (b'b' ∷ newline ∷ []),
      record { modified = true; asked = false; actions = 1; previous = 1; reported = [] },
    )
unfolding run_tool process_lines process match_line replace_all replace_from find_text count_match
    process_begin
second_run = refl

-- a as a whole word in aa a: the first match is no whole word, and the other is not looked at.
find_match_first :
    find_match
      (record plain { find_string = b'a' ∷ []; match_word = true; tool = Tool.report_find })
      (b'a' ∷ b'a' ∷ 32 ∷ b'a' ∷ [])
    ≡ none
unfolding find_match find_text is_whole_word
find_match_first = refl
