-- ===== src/Address/Substitution.antt =====
-- The substitute command of a range (src/vi/addressrange.cpp: substitute). What the editor does is
-- a parameter; a marker stands for its line. The loop takes fuel, and is `none` out of it. Its test
-- searches also after a cancel.
pub mod Laws
mod Tests
use wx_extension.Prelude.{
  ℕ, zero, suc, ◌+◌, Bool, true, false, not, ◌&&◌, ◌||◌, Option, none, some, [], ◌∷◌, ◌++◌, Text,
  length, get_or, if◌then◌else◌, ◌==◌, leb, eq_text, ℤ, pos, ◌-ℤ◌,
}
use wx_extension.Core.Text.{is_empty, contains}
use wx_extension.Ex.Expansion.{to_text}
use wx_extension.Address.Line.{get_line}
use wx_extension.Address.Range.{Range, is_ok}
use wx_extension.Address.RangeCommands.{Component}
use wx_extension.Address.Replacement.{Case, build_replacement}
use wx_extension.Substitute.{Substitute, set, set_options, is_confirmed, is_global, is_ignore_case}

pub data Answer : Type 0 where
  answer_yes answer_no cancel : Answer

-- search: SearchInTarget, `none` if it gives -1. write_target: what convert_case leaves in the
-- target. replace: with ReplaceTargetRE, or ReplaceTarget. line_start and line_end: of the line of
-- a marker. end_of_line: of the line of a position. ends_at_start: whether the selection of a line
-- ends where the line starts. select_marked: from the line of # to that of $, or the one behind it.
pub record Editor (E : Type 0) : Type 0 where
  pub is_hexmode : E → Bool
  pub cases : Case
  pub stream_substitute : Substitute → Range → E → E × Bool
  pub is_regex : E → Bool
  pub set_search_flags : Bool → E → E
  pub marker_add : ℕ → ℤ → E → E × Bool
  pub marker_delete : ℕ → E → E
  pub line_start : ℕ → E → ℕ
  pub line_end : ℕ → E → ℕ
  pub end_of_line : ℕ → E → ℕ
  pub ends_at_start : ℤ → E → Bool
  pub select_marked : Bool → E → E
  pub set_target : ℕ → ℕ → E → E
  pub target_start : E → ℕ
  pub target_end : E → ℕ
  pub target_text : E → Text
  pub write_target : Text → E → E
  pub search : Text → E → Option E
  pub confirm : Text → Text → E → E × Answer
  pub replace : Bool → Text → E → E
  pub hexmode_replace : Text → E → E
  pub hexmode_sync : E → E
  pub begin_undo : E → E
  pub end_undo : E → E
  pub show_message : Text → E → E
  pub clear_indicators : E → E

abbrev pub needs_build : Text → Bool
needs_build [] = false
needs_build (c ∷ t) = contains c (b'&' ∷ b'0' ∷ b'L' ∷ b'U' ∷ 92 ∷ []) || needs_build t

-- x* with nothing put in its place
abbrev is_endless : Substitute → Bool
is_endless s = (length s.pattern == 2 && get_or s.pattern 1 0 == b'*') && is_empty s.replacement

-- "Replaced: n occurrences of: pattern"
abbrev report : ℕ → Text → Text
report n t =
    (b'R' ∷ b'e' ∷ b'p' ∷ b'l' ∷ b'a' ∷ b'c' ∷ b'e' ∷ b'd' ∷ b':' ∷ 32 ∷ to_text n)
    ++ (32 ∷ b'o' ∷ b'c' ∷ b'c' ∷ b'u' ∷ b'r' ∷ b'r' ∷ b'e' ∷ b'n' ∷ b'c' ∷ b'e' ∷ b's' ∷ 32 ∷ b'o'
        ∷ b'f' ∷ b':' ∷ 32 ∷ t)

-- The text of a command: the substitution that is done, if there is one.
unfoldable pub substitution_of : ℕ → Text → Substitute → Option Substitute
substitution_of cmd t s =
    let r = set t s in
    if cmd == b's'
    then (if r.1 then some r.0 else none)
    else if cmd == b'&' || cmd == b'~'
    then some (set_options t s)
    else none

module _ {E : Type 0} (x : Editor E) where
  -- What the answer to a match does.
  unfoldable pub put_match : Bool → Text → ℕ → E × Answer → E × ℕ × Bool
  put_match regex t count (e, answer_yes) =
      (if x.is_hexmode e then x.hexmode_replace t e else x.replace regex t e, suc count, false)
  put_match regex t count (e, answer_no) = (e, count, false)
  put_match regex t count (e, cancel) = (e, count, true)

  -- One match: the replacement is built, confirmed and put in.
  unfoldable pub replace_match : Bool → Substitute → ℕ → E → E × ℕ × Bool
  unfolding put_match is_confirmed
  replace_match regex s count e =
      let built = build_replacement x.cases s.replacement (x.target_text e) in
      let text = if needs_build s.replacement then built.0 else s.replacement in
      let e1 = if needs_build s.replacement then x.write_target built.1 e else e in
      put_match regex text count
        (if is_confirmed s then x.confirm s.pattern text e1 else (e1, answer_yes))

  -- From the end of the target, or of its line, to the end of the range.
  unfoldable pub advance : Substitute → E → E
  unfolding is_global
  advance s e =
      x.set_target (if is_global s then x.target_end e else x.end_of_line (x.target_end e) e)
        (x.line_end b'$' e) e

  unfoldable pub substitute_matches : ℕ → Bool → Substitute → ℕ → Bool → E → Option (E × ℕ)
  substitute_matches zero regex s count cancelled e = none
  substitute_matches (suc n) regex s count cancelled e = elim (x.search s.pattern e) [
    | none ↦ some (e, count)
    | some f ↦ elim cancelled [
      | true ↦ some (f, count)
      | false ↦
          let r = replace_match regex s count f in
          let g = advance s r.0 in
          elim (leb (x.target_end g) (x.target_start g)) [
            | true ↦ some (g, r.1)
            | false ↦ substitute_matches n regex s r.1 r.2 g
          ]
    ]
  ]

  -- What stands behind the loop.
  unfoldable pub end_substitute : Range → Substitute → Bool → E × ℕ → E
  end_substitute r s corrected (e, count) =
      let e1 = x.end_undo (if x.is_hexmode e then x.hexmode_sync e else e) in
      let visual =
        eq_text r.begin.address (39 ∷ b'<' ∷ []) && eq_text r.end.address (39 ∷ b'>' ∷ []) in
      let e2 = if visual then x.select_marked corrected e1 else e1 in
      x.clear_indicators
        (x.show_message (report count s.pattern) (x.marker_delete b'$' (x.marker_delete b'#' e2)))

  -- The markers are set, and the matches of the range are replaced.
  unfoldable pub substitute_visual :
      Component E → ℕ → Bool → Range → Substitute → Substitute → E → Option (E × Substitute × Bool)
  unfolding end_substitute
  substitute_visual m n regex r s old e =
      let v = m.view in
      let start = x.marker_add b'#' (get_line v r.begin e -ℤ pos 1) e in
      let last = get_line v r.end start.0 -ℤ pos 1 in
      let corrected = not (is_empty (m.selected start.0)) && x.ends_at_start last start.0 in
      let stop = x.marker_add b'$' (if corrected then last -ℤ pos 1 else last) start.0 in
      let e1 = x.begin_undo (x.set_search_flags (is_ignore_case s) stop.0) in
      if not start.1
      then some (start.0, old, false)
      else if not stop.1
      then some (stop.0, old, false)
      else elim (substitute_matches n regex s 0 false
          (x.set_target (x.line_start b'#' e1) (x.line_end b'$' e1) e1)) [
            | none ↦ none
            | some done ↦ some (end_substitute r s corrected done, s, true)
          ]

  -- substitute; the last component is m_substitute, which a stream leaves as it is
  unfoldable pub substitute_range :
      Component E → ℕ → Text → ℕ → Range → Substitute → E → Option (E × Substitute × Bool)
  unfolding substitution_of substitute_visual
  substitute_range m n t cmd r old e =
      if (m.view.is_visual e && m.is_readonly e) || not (is_ok m.view r e)
      then some (e, old, false)
      else elim (substitution_of cmd t old) [
        | none ↦ some (e, old, false)
        | some s ↦
            if is_empty s.pattern || (x.is_regex e && is_endless s)
            then some (e, old, false)
            else if not (m.view.is_visual e)
            then (let d = x.stream_substitute s r e in some (d.0, old, d.1))
            else substitute_visual m n (x.is_regex e) r s old e
      ]
