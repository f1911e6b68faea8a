-- ===== src/ExStream/Commands/Results.antt =====
-- The commands erase, insert_text and join (src/vi/ex-stream.cpp) against plain lists of lines.
use mathlib.Core.Path.{subst}
use wx_extension.Prelude.{
  ℕ, suc, ◌+◌, ◌-◌, ◌<◌, ◌≡◌, true, false, Option, some, List, [], ◌∷◌, ◌++◌, Text, length, arith,
  refl, ◌∙◌, ap, pos, ◌>>=◌, concat, map,
}
use wx_extension.ExStream.Line.{Regex, StreamLine, Range, erase, is_ok, new_action, new_insert}
use wx_extension.ExStream.Scan.Split.{emit_all, advance_all}
use wx_extension.ExStream.Scan.Emit.{AllJoinable}
use wx_extension.ExStream.Scan.Joinable.{AllJoinable-of_ne}
use wx_extension.ExStream.Scan.Ranges.{outside, inside, moved, emit_all-range, advance_all-range}
use wx_extension.ExStream.State.{State, fewer_lines}
use wx_extension.ExStream.Navigate.{goto_line}
use wx_extension.ExStream.Navigate.Laws.{HasRoom, Reads, goto_line-zero}
use wx_extension.ExStream.Commands.{process, lines_removed, clamp, erase_lines, insert_text}
use wx_extension.ExStream.Commands.Edits.{IsReady, IsEdited, lines_of, Edits, process-IsEdited}

-- The range is a part of the lines, and not empty.
pub record IsWithin (range : Range) (lines before within behind : List Text) : Type 0 where
  pub parts : lines ≡ before ++ (within ++ behind)
  pub start : range.begin_line ≡ length before + 1
  pub stop : range.end_line ≡ length before + length within
  pub some_line : 0 < length within

pub IsWithin-is_ok :
    {range : Range} {lines before within behind : List Text}
    → IsWithin range lines before within behind
    → is_ok range ≡ true
IsWithin-is_ok h = ground arith

module _ (regex : Regex) (range : Range) (sl : StreamLine)
    (next : StreamLine → State → Option State) (s : State) (before within behind : List Text)
    (e : ℕ) (ready : IsReady s) (parts : lines_of s ≡ before ++ (within ++ behind))
    (ok : is_ok range ≡ true) (some_line : 0 < length within) (edits : Edits sl.action)
    (joinable : AllJoinable sl (lines_of s)) (line : sl.line ≡ 0) (none_yet : sl.actions ≡ 0)
    (hb : sl.begin_line ≡ pos (length before)) (he : sl.end_line ≡ pos e)
    (hw : suc e ≡ length before + length within) where
  pub process-range :
      (s' : State) × (process regex range sl next s
        ≡ (next (moved sl (length within) (length (lines_of s))) s' >>= λ s''. some (true, s'')))
      × IsEdited s s' (
          s.temp
          ++ (outside sl.action before
              ++ (concat (map (inside sl.action sl.text) within) ++ outside sl.action behind)))
  process-range =
      let adv : advance_all sl (lines_of s) ≡ moved sl (length within) (length (lines_of s)) =
        rw parts (advance_all-range sl before within behind e line hb he hw) in
      let em : emit_all sl (lines_of s)
          ≡ outside sl.action before
            ++ (concat (map (inside sl.action sl.text) within) ++ outside sl.action behind) =
        rw parts (emit_all-range sl before within behind e line hb he hw) in
      let (s', p, d) =
        process-IsEdited regex range sl next s ready ok edits joinable
          (rw adv (omega (arith, some_line))) (rw adv refl) in
      (s', rw adv at p, rw em at d)

-- Behind an edit the commands show a message and go to a line, which reads only.
pub shown :
    {s t u : State} {text : Text} (sl : StreamLine)
    → IsEdited s t text
    → Reads (lines_removed sl t) u
    → IsEdited s u text
shown sl d r = ground arith

pub HasRoom-edited :
    {s t : State} {text : Text} (sl : StreamLine)
    → IsReady s
    → IsEdited s t text
    → HasRoom (lines_removed sl t)
HasRoom-edited sl h d = ground (arith, h.has_room)

concat-none : (xs : List Text) → concat (map (λ (x : Text). inside erase [] x) xs) ≡ []
concat-none [] = refl
concat-none (x ∷ xs) = concat-none xs

module _ (regex : Regex) (range : Range) (s : State) (before within behind : List Text) where
  -- For a range within the lines of a stream that is ready, erase returns true; the new content is
  -- what the temporary file held (nothing, unless a command before left something in it), then the
  -- lines before and behind the range, in their order; the message counts the erased lines, and the
  -- temporary file is empty again.
  pub erase_lines-IsEdited :
      IsReady s
      → IsWithin range (lines_of s) before within behind
      → (s' : State) × (erase_lines regex range s ≡ some (true, s'))
        × IsEdited s s' (s.temp ++ (concat before ++ concat behind))
        × (s'.message ≡ some (fewer_lines (length within)))
  unfolding erase_lines new_action
  erase_lines-IsEdited ready h =
      let sl = new_action erase range in
      let (t, p, d) =
        process-range regex range sl (λ sl' s'. goto_line 0 (lines_removed sl' s')) s before within
          behind (range.end_line - 1) ready h.parts (IsWithin-is_ok h) h.some_line (tt, λ e. cc)
          (AllJoinable-of_ne sl (lines_of s) (λ e. cc)) refl refl (ground (arith, h.start))
          (ground (arith, h.stop)) (omega (arith, h.stop, h.some_line)) in
      let sl' = moved sl (length within) (length (lines_of s)) in
      let (u, q, reads) = goto_line-zero (lines_removed sl' t) (HasRoom-edited sl' ready d) in
      (
        u,
        p ∙ ap (λ m. m >>= λ s''. some (true, s'')) q,
        subst (λ x. IsEdited s u (s.temp ++ (concat before ++ (x ++ concat behind))))
            (concat-none within) (shown sl' d reads),
        reads.message ∙ ap (λ n. some (fewer_lines n)) (omega arith),
      )

module _ (regex : Regex) (s : State) (before within behind : List Text) where
  -- For an address that is a line of a stream that is ready, with a next line, and a count of the
  -- lines that is unknown or not less than both: insert_text, not after the address, puts the text
  -- before the line and before the next one, the two lines of its range, leaves all other lines as
  -- they are, and then goes to the line. What the temporary file held comes first.
  pub insert_text-IsEdited :
      (address : ℕ) (text : Text)
      → IsReady s
      → IsWithin
          (record { begin_line = address; end_line = address + 1 })
          (lines_of s)
          before
          within
          behind
      → clamp address s ≡ address
      → clamp (address + 1) s ≡ address + 1
      → (s' : State) × (insert_text regex address false text s
          ≡ (goto_line address s' >>= λ s''. some (true, s'')))
        × IsEdited s s'
            (s.temp ++ (concat before ++ (concat (map (λ x. text ++ x) within) ++ concat behind)))
  unfolding insert_text new_insert new_action
  insert_text-IsEdited address text ready h c c' =
      let range : Range = record { begin_line = address; end_line = address + 1 } in
      let sl = new_insert range text in
      let (t, p, d) =
        process-range regex range sl (λ sl' s'. goto_line address s') s before within behind address
          ready h.parts (IsWithin-is_ok h) h.some_line (tt, λ e. cc)
          (AllJoinable-of_ne sl (lines_of s) (λ e. cc)) refl refl (ground (arith, h.start))
          (ground (arith, h.stop)) (omega (arith, h.stop, h.some_line)) in
      let clamped : Path Range
          (record { begin_line = clamp address s; end_line = clamp (address + 1) s }) range =
        λ i. record { begin_line = c i; end_line = c' i } in
      (
        t,
        ap (λ (r : Range). process regex r (new_insert r text) (λ sl' s'. goto_line address s') s)
              clamped
            ∙ p,
        d,
      )
