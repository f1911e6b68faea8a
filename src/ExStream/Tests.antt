-- ===== src/ExStream/Tests.antt =====
-- The commands on a small stream of three lines (src/vi/ex-stream.cpp), whose line buffer takes
-- seven chars.
use wx_extension.Prelude.{
  ℕ, ◌≡◌, ◌≢◌, true, false, none, some, [], ◌∷◌, ◌++◌, Text, length, arith, refl, ◌>>=◌, concat,
  map, ◌==◌, if◌then◌else◌, replicate, newline, is_prefix, drop,
}
use wx_extension.Macros.Registers.{Registers, get_register}
use wx_extension.ExStream.Line.{
  Regex, Substitute, search_replace, StreamLine, Range, Output, insert, join, yank, new_action,
}
use wx_extension.ExStream.Scan.Split.{split}
use wx_extension.ExStream.Scan.Ranges.{moved}
use wx_extension.ExStream.Scan.YankRanges.{IsPlain}
use wx_extension.ExStream.State.{State, file, content, new, fewer_lines, replaced}
use wx_extension.ExStream.Navigate.{goto_line}
use wx_extension.ExStream.Navigate.Laws.{Reads}
use wx_extension.ExStream.Navigate.Reach.{Reached, goto_line-Reached}
use wx_extension.ExStream.Commands.{
  erase_lines, substitute_lines, insert_text, join_lines, yank_lines, write_lines, write_file,
  lines_removed,
}
use wx_extension.ExStream.Commands.Edits.{IsReady, IsEdited, lines_of}
use wx_extension.ExStream.Commands.Results.{IsWithin, erase_lines-IsEdited, insert_text-IsEdited}
use wx_extension.ExStream.Commands.Join.{chop, join_lines-IsEdited}
use wx_extension.ExStream.Commands.Rewrite.{substitute_lines-IsEdited}
use wx_extension.ExStream.Scan.Rewrite.{rewritten}
use wx_extension.ExStream.Commands.Write.{write_lines-Reads, write_file-erase_lines}
use wx_extension.ExStream.Commands.Yank.{IsYanked, yank_lines-IsYanked, erase_lines-yank_lines}

abbrev no_regex : Regex
no_regex pattern line replacement = none

abbrev one : Text
one = b'a' ∷ newline ∷ []

abbrev two : Text
two = b'b' ∷ b'b' ∷ newline ∷ []

abbrev three : Text
three = b'c' ∷ newline ∷ []

abbrev registers : Registers
registers = record { macros = λ _. []; clipboard = [] }

abbrev example : State
example = record (new (replicate 7 0) registers) {
  source = some file;
  file = one ++ (two ++ three);
  line_size = 7;
}

abbrev example_ready : IsReady example
example_ready = record {
  has_room = record { positive = omega arith; room = omega arith };
  is_open = (file, refl);
}

abbrev second : Range
second = record { begin_line = 2; end_line = 2 }

abbrev first_two : Range
first_two = record { begin_line = 1; end_line = 2 }

second-IsWithin : IsWithin second (lines_of example) (one ∷ []) (two ∷ []) (three ∷ [] ∷ [])
unfolding split
second-IsWithin = record { parts = refl; start = refl; stop = refl; some_line = omega arith }

first_two-IsWithin : IsWithin first_two (lines_of example) [] (one ∷ two ∷ []) (three ∷ [] ∷ [])
unfolding split
first_two-IsWithin = record { parts = refl; start = refl; stop = refl; some_line = omega arith }

erase_lines-IsEdited_example :
    (s' : State) × (erase_lines no_regex second example ≡ some (true, s'))
    × IsEdited example s' ([] ++ (concat (one ∷ []) ++ concat (three ∷ [] ∷ [])))
    × (s'.message ≡ some (fewer_lines 1))
erase_lines-IsEdited_example =
    erase_lines-IsEdited no_regex second example (one ∷ []) (two ∷ []) (three ∷ [] ∷ [])
      example_ready second-IsWithin

-- An expression that a line matches at its start, with so many groups.
abbrev at_start : ℕ → Regex
at_start groups pattern line replacement =
    if is_prefix pattern line
    then some (replacement ++ drop (length pattern) line, groups)
    else none

abbrev b_to_x : Substitute
b_to_x = record {
  pattern = b'b' ∷ [];
  replacement = b'x' ∷ b'y' ∷ [];
  is_global = false;
  is_regex = true;
}

substitute_lines-IsEdited_example :
    (s' : State) × (substitute_lines (at_start 1) second b_to_x example ≡ some (true, s'))
    × IsEdited example s' (
        []
        ++ (concat (one ∷ [])
            ++ (concat (map (λ x. (rewritten (at_start 1) b_to_x x).0) (two ∷ []))
                ++ concat (three ∷ [] ∷ []))))
    × (s'.message ≡ some (replaced 1 (b'b' ∷ [])))
unfolding search_replace
substitute_lines-IsEdited_example =
    substitute_lines-IsEdited (at_start 1) second b_to_x example (one ∷ []) (two ∷ [])
      (three ∷ [] ∷ []) example_ready second-IsWithin refl (omega arith)

-- The line the expression matches, with and without a group, and a line it does not match.
rewritten-group : rewritten (at_start 1) b_to_x two ≡ (b'x' ∷ b'y' ∷ b'b' ∷ newline ∷ [], true)
unfolding search_replace
rewritten-group = refl

rewritten-no_group : rewritten (at_start 0) b_to_x two ≡ (two, false)
unfolding search_replace
rewritten-no_group = refl

rewritten-no_match : rewritten (at_start 1) b_to_x one ≡ (one, true)
unfolding search_replace
rewritten-no_match = refl

insert_text-IsEdited_example :
    (s' : State) × (insert_text no_regex 1 false three example
      ≡ (goto_line 1 s' >>= λ s''. some (true, s'')))
    × IsEdited example s' (
        []
        ++ (concat []
            ++ (concat (map (λ x. three ++ x) (one ∷ two ∷ [])) ++ concat (three ∷ [] ∷ []))))
insert_text-IsEdited_example =
    insert_text-IsEdited no_regex example [] (one ∷ two ∷ []) (three ∷ [] ∷ []) 1 three
      example_ready first_two-IsWithin refl refl

join_lines-IsEdited_example :
    (s' : State) × (join_lines no_regex first_two example ≡ (
      goto_line 0
        (lines_removed (moved (new_action join first_two) 1 (length (lines_of example))) s')
      >>= λ s''. some (true, s'')))
    × IsEdited example s'
        ([] ++ (concat [] ++ (concat (map chop (one ∷ [])) ++ concat (two ∷ three ∷ [] ∷ []))))
unfolding split
join_lines-IsEdited_example =
    join_lines-IsEdited no_regex first_two example [] (one ∷ []) (three ∷ [] ∷ []) two example_ready
      refl refl refl (omega arith)

a-IsPlain : IsPlain b'a'
a-IsPlain = record {
  valid = refl;
  lower = refl;
  not_clipboard = omega arith;
  not_quote = omega arith;
  not_black_hole = omega arith;
}

yank_lines-IsYanked_example :
    (s' : State) × (yank_lines no_regex second b'a' example ≡ some (true, s'))
    × IsYanked example s' s'.registers (concat (one ∷ []))
    × ((j : ℕ)
        → j ≢ b'*'
        → j ≢ 34
        → get_register j s'.registers
          ≡ (if j == b'a' then concat (two ∷ []) else get_register j example.registers))
yank_lines-IsYanked_example =
    yank_lines-IsYanked no_regex second b'a' example (one ∷ []) (two ∷ []) (three ∷ [] ∷ [])
      example_ready second-IsWithin a-IsPlain

erase_lines-yank_lines_example :
    (s₁ : State) × (s₂ : State) × (yank_lines no_regex second b'a' example ≡ some (true, s₁))
    × (erase_lines no_regex first_two s₁ ≡ some (true, s₂))
    × (content s₂ ≡ concat (one ∷ []) ++ (concat [] ++ concat (three ∷ [] ∷ [])))
erase_lines-yank_lines_example =
    erase_lines-yank_lines no_regex second first_two b'a' example (one ∷ []) (two ∷ [])
      (three ∷ [] ∷ []) [] (one ∷ two ∷ []) (three ∷ [] ∷ []) example_ready refl second-IsWithin
      first_two-IsWithin a-IsPlain

write_file-erase_lines_example :
    (s₁ : State) × (s₂ : State) × (s₃ : State) × (erase_lines no_regex second example
      ≡ some (true, s₁))
    × (write_file s₁ ≡ some (true, s₂))
    × (s₂.file ≡ concat (one ∷ []) ++ concat (three ∷ [] ∷ []))
    × (s₂.is_modified ≡ false)
    × (write_file s₂ ≡ some (true, s₃))
    × (s₃.file ≡ [])
write_file-erase_lines_example =
    write_file-erase_lines no_regex second example (one ∷ []) (two ∷ []) (three ∷ [] ∷ [])
      example_ready refl second-IsWithin

write_lines-Reads_example :
    (s' : State) × (write_lines no_regex second true three example
      ≡ some (true, three ++ concat (two ∷ []), s'))
    × Reads example s'
write_lines-Reads_example =
    write_lines-Reads no_regex second true three example (one ∷ []) (two ∷ []) (three ∷ [] ∷ [])
      example_ready second-IsWithin

abbrev output : Output
output = record { file = three; registers = registers; buffer = replicate 7 0 }

abbrev inserting : StreamLine
inserting = record (new_action insert second) { text = three }

abbrev yanking : StreamLine
yanking = record (new_action yank second) { register = b'a' }

goto_line-Reached_example :
    (s' : State) × (goto_line 2 example ≡ some s') × Reads example s' × Reached 2 s'
goto_line-Reached_example =
    goto_line-Reached 2 example file refl example_ready.has_room (omega arith) refl
