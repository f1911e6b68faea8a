-- ===== src/ExStream/Commands/Join.antt =====
-- The command join (src/vi/ex-stream.cpp) against a plain list of lines.
use wx_extension.Prelude.{
  suc, ◌+◌, ◌-◌, ◌<◌, ◌≡◌, true, some, List, [], ◌∷◌, ◌++◌, Text, length, take, arith, refl, ◌>>=◌,
  concat, map, length-append,
}
use wx_extension.ExStream.Line.{Regex, Range, join, new_action}
use wx_extension.ExStream.Scan.Joinable.{AllJoinable-of_end, split-AllButLast}
use wx_extension.ExStream.Scan.Ranges.{moved}
use wx_extension.ExStream.State.{State, content}
use wx_extension.ExStream.Navigate.{goto_line}
use wx_extension.ExStream.Commands.{lines_removed, join_lines}
use wx_extension.ExStream.Commands.Edits.{IsReady, IsEdited, lines_of}
use wx_extension.ExStream.Commands.Results.{process-range}

-- A line without its last char, which is its newline.
abbrev pub chop : Text → Text
chop x = take (length x - 1) x

module _ (regex : Regex) (range : Range) (s : State) (before within behind : List Text)
    (last : Text) where
  -- For a range of at least two lines of a stream that is ready, join takes the last char (the
  -- newline, of a line that ends in one) off every line of the range but the last, leaves all
  -- other lines as they are, and then runs goto_line for the first line of the range, with the
  -- message and the count of one line less for each. What the temporary file held comes first.
  pub join_lines-IsEdited :
      IsReady s
      → lines_of s ≡ before ++ (within ++ (last ∷ behind))
      → range.begin_line ≡ length before + 1
      → range.end_line ≡ length before + length within + 1
      → 0 < length within
      → (s' : State) × (join_lines regex range s ≡ (
          goto_line
            (range.begin_line - 1)
            (lines_removed (moved (new_action join range) (length within) (length (lines_of s))) s')
          >>= λ s''. some (true, s'')))
        × IsEdited s s'
            (s.temp ++ (concat before ++ (concat (map chop within) ++ concat (last ∷ behind))))
  unfolding join_lines new_action
  join_lines-IsEdited ready parts start end_lem some_line =
      let sl = new_action join range in
      let count : length (lines_of s) ≡ length before + (length within + suc (length behind)) =
        rw parts (
          omega (
            arith,
            length-append before (within ++ (last ∷ behind)),
            length-append within (last ∷ behind),
          )) in
      process-range regex range sl
        (λ sl' s'. goto_line (range.begin_line - 1) (lines_removed sl' s')) s before within
        (last ∷ behind) (range.end_line - 2) ready parts (ground arith) some_line (tt, λ e. cc)
        (AllJoinable-of_end sl (lines_of s) (range.end_line - 2)
          (split-AllButLast s.line_size [] (content s)) (ground arith)
          (omega (arith, count, end_lem)))
        refl refl (ground arith) (ground arith) (omega (arith, end_lem))
