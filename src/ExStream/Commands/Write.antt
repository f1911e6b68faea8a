-- ===== src/ExStream/Commands/Write.antt =====
-- Writing lines of the stream to another file, and the stream to its own file
-- (src/vi/ex-stream.cpp: both methods write), and the markers.
use wx_extension.Prelude.{
  ℕ, ◌-◌, ◌≡◌, Bool, true, false, some, List, [], ◌∷◌, ◌++◌, Text, map, arith, refl, ◌∙◌, ap,
  concat, ◌==◌, if◌then◌else◌, append-nil, ℤ,
}
use wx_extension.ExStream.Line.{Regex, StreamLine, Range, write, is_ok, new_action}
use wx_extension.ExStream.Scan.Split.{emit_all, advance_all}
use wx_extension.ExStream.Scan.Joinable.{AllJoinable-of_ne}
use wx_extension.ExStream.Scan.Ranges.{inside, emit_all-range}
use wx_extension.ExStream.State.{State, Source, content, unknown, work}
use wx_extension.ExStream.Navigate.Laws.{Reads}
use wx_extension.ExStream.Commands.{
  stream_lines, write_lines, write_file, copy_work_file, erase_lines, marker_add, marker_delete,
  marker_line,
}
use wx_extension.ExStream.Commands.Edits.{IsReady, lines_of, stream_lines-emit}
use wx_extension.ExStream.Commands.Results.{IsWithin, IsWithin-is_ok, erase_lines-IsEdited}

write_lines-some :
    (regex : Regex) (range : Range) (append : Bool) (old text : Text) (s t : State)
    (sl : StreamLine) {w : Source}
    → s.source ≡ some w
    → is_ok range ≡ true
    → stream_lines regex (new_action write range) (if append then old else []) s
      ≡ some (sl, text, t)
    → write_lines regex range append old s ≡ some (true, text, t)
unfolding write_lines
write_lines-some regex range append old text s t sl o ok e = ground arith

concat-written : (xs : List Text) → concat (map (λ x. inside write [] x) xs) ≡ concat xs
concat-written [] = refl
concat-written (x ∷ xs) = ap (λ t. x ++ t) (concat-written xs)

-- For a range within the lines, write returns true, the named file holds exactly the lines of the
-- range, behind its old content where it is appended to, and the stream, its files and its markers
-- are left alone.
pub write_lines-Reads :
    (regex : Regex) (range : Range) (append : Bool) (old : Text) (s : State)
    (before within behind : List Text)
    → IsReady s
    → IsWithin range (lines_of s) before within behind
    → (s' : State) × (write_lines regex range append old s
        ≡ some (true, (if append then old else []) ++ concat within, s'))
      × Reads s s'
unfolding new_action
write_lines-Reads regex range append old s before within behind ready h =
    let sl = new_action write range in
    let opened = if append then old else [] in
    let (s', e, reads) =
      stream_lines-emit regex sl opened s tt ready.has_room
        (AllJoinable-of_ne sl (lines_of s) (λ e. cc)) in
    let em : emit_all sl (lines_of s) ≡ concat within = rw h.parts (
      emit_all-range sl before within behind (range.end_line - 1) refl (ground (arith, h.start))
        (ground (arith, h.stop)) (omega (arith, h.stop, h.some_line))
      ∙ append-nil (concat (map (λ x. inside write [] x) within))
      ∙ concat-written within) in
    (
      s',
      rw em at (
          write_lines-some regex range append old (opened ++ emit_all sl (lines_of s)) s s'
            (advance_all sl (lines_of s)) ready.is_open.1 (IsWithin-is_ok h) e),
      reads,
    )

-- A write with a range that is not valid fails, and leaves the named file empty unless it is
-- appended to.
pub write_lines-not_ok :
    (regex : Regex) (range : Range) (append : Bool) (old : Text) (s : State)
    → IsReady s
    → is_ok range ≡ false
    → write_lines regex range append old s ≡ some (false, (if append then old else []), s)
unfolding write_lines
write_lines-not_ok regex range append old s ready ok = ground (arith, ready.is_open.1)

write_file-some :
    (s : State) {w : Source}
    → s.source ≡ some w
    → write_file s ≡ some (true, record (copy_work_file s) { is_modified = false })
unfolding write_file
write_file-some s o = ground arith

work-content : (s : State) → s.source ≡ some work → s.work ≡ content s
work-content s o = ground arith

-- After an erase on a stream that is ready and has an empty temporary file, write saves to the file
-- exactly the lines before and behind the erased range, and the stream is no longer modified. A
-- second write that follows leaves the file empty.
pub write_file-erase_lines :
    (regex : Regex) (range : Range) (s : State) (before within behind : List Text)
    → IsReady s
    → s.temp ≡ []
    → IsWithin range (lines_of s) before within behind
    → (s₁ : State) × (s₂ : State) × (s₃ : State) × (erase_lines regex range s ≡ some (true, s₁))
      × (write_file s₁ ≡ some (true, s₂))
      × (s₂.file ≡ concat before ++ concat behind)
      × (s₂.is_modified ≡ false)
      × (write_file s₂ ≡ some (true, s₃))
      × (s₃.file ≡ [])
unfolding copy_work_file
write_file-erase_lines regex range s before within behind ready clean h =
    let (s₁, e, d, _) = erase_lines-IsEdited regex range s before within behind ready h in
    let s₂ : State = record (copy_work_file s₁) { is_modified = false } in
    let s₃ : State = record (copy_work_file s₂) { is_modified = false } in
    (
      s₁,
      s₂,
      s₃,
      e,
      write_file-some s₁ d.is_open,
      work-content s₁ d.is_open
          ∙ d.content_lem
          ∙ ap (λ t. t ++ (concat before ++ concat behind)) clean,
      refl,
      write_file-some s₂ refl,
      refl,
    )

-- The line of a marker after marker_add or marker_delete of any marker: a valid add sets it, a
-- delete makes it unknown, and all other markers keep their lines.
pub marker_line-marker_add :
    (m k : ℕ) (line : ℤ) (s : State)
    → (marker_line k (marker_add m line s).1 ≡ (
        if k == m
        then (if (marker_add m line s).0 then line else marker_line k s)
        else marker_line k s))
      × (marker_line k (marker_delete m s).1 ≡ (if k == m then unknown else marker_line k s))
unfolding marker_line marker_add marker_delete
marker_line-marker_add m k line s = (ground arith, ground arith)
