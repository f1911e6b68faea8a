-- ===== src/ExStream/Commands/Rewrite.antt =====
-- The command substitute (src/vi/ex-stream.cpp) with a regular expression, against a plain list of
-- lines.
use wx_extension.Prelude.{
  ℕ, suc, ◌+◌, ◌-◌, ◌<◌, ◌≡◌, true, some, List, [], ◌++◌, Text, length, arith, refl, ap, ◌∙◌, pos,
  ◌>>=◌, concat, map, inl, inr,
}
use mathlib.Core.Path.{subst}
use wx_extension.ExStream.Line.{
  Regex, StreamLine, Substitute, Range, is_ok, new_substitute, substitute,
}
use wx_extension.ExStream.Scan.Rewrite.{
  Rewrites, rewritten, hits, passed, all_emitted, all_counted, scan-rewritten, all_emitted-append,
  outside-emitted, inside-emitted,
}
use wx_extension.ExStream.State.{State, Message, content, replaced}
use wx_extension.ExStream.Navigate.{goto_line}
use wx_extension.ExStream.Navigate.Laws.{HasRoom, Reads, goto_line-zero}
use wx_extension.ExStream.Commands.{
  stream_lines, stream_to_temp, copy_temp_work, behind, substitute_lines,
}
use wx_extension.ExStream.Commands.Edits.{
  IsReady, IsEdited, lines_of, scanned, scanned-Reads, IsEdited-copy, process-behind,
}
use wx_extension.ExStream.Commands.Results.{IsWithin, IsWithin-is_ok}

module _ (regex : Regex) where
  stream_lines-rewritten :
      (sl : StreamLine) (out : Text) (s : State)
      → Rewrites sl
      → HasRoom s
      → (s' : State) × (stream_lines regex sl out s
          ≡ some (all_counted regex sl (lines_of s), out ++ all_emitted regex sl (lines_of s), s'))
        × Reads s s'
  unfolding stream_lines
  stream_lines-rewritten sl out s w h =
      let (o', e, f, r, l) =
        scan-rewritten regex s.line_size (content s) 0 sl
          (record { file = out; registers = s.registers; buffer = s.current_line }) w h.room
          h.positive in
      (
        scanned s [] o'.registers o'.buffer,
        rw (e, f) refl,
        scanned-Reads s [] o'.registers o'.buffer r l,
      )

  -- The lines of the stream, those in the range rewritten.
  module _ (sl : StreamLine) (before within behind : List Text) (e : ℕ) (start : sl.line ≡ 0)
      (hb : sl.begin_line ≡ pos (length before)) (he : sl.end_line ≡ pos e)
      (hw : suc e ≡ length before + length within) where
    all_emitted-range :
        (all_emitted regex sl (before ++ (within ++ behind))
          ≡ concat before
            ++ (concat (map (λ x. (rewritten regex sl.subst x).0) within) ++ concat behind))
        × (all_counted regex sl (before ++ (within ++ behind))
            ≡ passed regex sl
                (hits regex sl.subst within)
                (length before + (length within + length behind)))
    all_emitted-range =
        let d = sl.subst in
        let p = outside-emitted regex sl before (length before) e hb he (inl (omega arith)) in
        let sl₁ = passed regex sl 0 (length before) in
        let q =
          inside-emitted regex sl₁ within (length before) e hb he (omega arith) (omega arith) in
        let sl₂ = passed regex sl₁ (hits regex d within) (length within) in
        let r = outside-emitted regex sl₂ behind (length before) e hb he (inr (omega arith)) in
        let a = all_emitted-append regex sl before (within ++ behind) in
        let b = all_emitted-append regex sl₁ within behind in
        (rw (a.0, p.0, p.1, b.0, q.0, q.1, r.0) refl, rw (a.1, p.1, b.1, q.1, r.1) (ground arith))

  stream_to_temp-rewritten :
      (range : Range) (sl sl' : StreamLine) (text : Text) (s t : State)
      → is_ok range ≡ true
      → stream_lines regex sl s.temp s ≡ some (sl', text, t)
      → sl'.action ≡ substitute
      → 0 < sl'.actions
      → stream_to_temp regex range sl s
        ≡ some (behind sl' (copy_temp_work (record t { temp = text })))
  unfolding stream_to_temp
  stream_to_temp-rewritten range sl sl' text s t ok e a hits = ground arith

HasRoom-shown :
    {s t : State} {text : Text} {m : Message}
    → IsReady s
    → IsEdited s t text
    → HasRoom (record t { message = some m })
HasRoom-shown h d = ground (arith, h.has_room)

module _ (regex : Regex) (range : Range) (d : Substitute) (s : State)
    (before within behind : List Text) where
  -- For a range within the lines of a stream that is ready, and a regular expression that replaces
  -- something in one of its lines, substitute returns true. The new content is what the temporary
  -- file held, then the lines before the range, the lines of the range, each as the regular
  -- expression leaves it, and the lines behind it; a line the expression matches without having a
  -- group stays as it is, as does a line it does not match. The message counts the lines whose
  -- search is not zero, and so those without a match as well, and the temporary file is empty
  -- again.
  pub substitute_lines-IsEdited :
      IsReady s
      → IsWithin range (lines_of s) before within behind
      → d.is_regex ≡ true
      → 0 < hits regex d within
      → (s' : State) × (substitute_lines regex range d s ≡ some (true, s'))
        × IsEdited s s' (
            s.temp
            ++ (concat before
                ++ (concat (map (λ x. (rewritten regex d x).0) within) ++ concat behind)))
        × (s'.message ≡ some (replaced (hits regex d within) d.pattern))
  unfolding substitute_lines new_substitute
  substitute_lines-IsEdited ready h r some_hit =
      let sl = new_substitute range d in
      let w : Rewrites sl = record { action_lem = refl; regex_lem = r } in
      let (em, adv) =
        all_emitted-range regex sl before within behind (range.end_line - 1) refl
          (ground (arith, h.start)) (ground (arith, h.stop)) (omega (arith, h.stop, h.some_line)) in
      let text = s.temp ++ all_emitted regex sl (lines_of s) in
      let sl' =
        passed regex sl (hits regex d within) (length before + (length within + length behind)) in
      let counts : all_counted regex sl (lines_of s) ≡ sl' = rw h.parts adv in
      let (t, e, reads) = stream_lines-rewritten regex sl s.temp s w ready.has_room in
      let t' = copy_temp_work (record t { temp = text }) in
      let edited = IsEdited-copy text reads in
      let message = replaced sl'.actions d.pattern in
      let emits : all_emitted regex sl (lines_of s)
          ≡ concat before ++ (concat (map (λ x. (rewritten regex d x).0) within) ++ concat behind) =
        rw h.parts em in
      let (u, q, reads') =
        goto_line-zero (record t' { message = some message }) (HasRoom-shown ready edited) in
      (
        u,
        process-behind regex range sl sl'
              (λ sl' s'.
                goto_line 0 (record s' { message = some (replaced sl'.actions d.pattern) }))
              s t' ready.is_open.1
              (stream_to_temp-rewritten regex range sl sl' text s t (IsWithin-is_ok h)
                (e ∙ ap (λ c. some (c, text, t)) counts) refl (omega (arith, some_hit)))
            ∙ ap (λ m. m >>= λ s''. some (true, s'')) q,
        subst (λ x. IsEdited s u (s.temp ++ x)) emits (ground arith),
        reads'.message ∙ ap (λ n. some (replaced n d.pattern)) (omega arith),
      )
