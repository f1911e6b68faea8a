-- ===== src/ExStream/Commands/Edits.antt =====
-- What the commands that edit the stream leave in it (src/vi/ex-stream.cpp: erase, join,
-- insert_text), line by line.
use wx_extension.Prelude.{
  ℕ, ◌<◌, ◌≡◌, ◌≢◌, true, Option, some, List, [], ◌++◌, Text, length, arith, sym, ◌>>=◌,
}
use mathlib.Core.Path.{subst}
use wx_extension.Macros.Registers.{Registers}
use wx_extension.ExStream.Line.{Regex, StreamLine, Range, Action, write, is_ok}
use wx_extension.ExStream.Scan.Split.{split, emit_all, advance_all}
use wx_extension.ExStream.Scan.Emit.{Copies, AllJoinable, scan-emit}
use wx_extension.ExStream.Stream.{clear, seekg, after_gets}
use wx_extension.ExStream.State.{State, work, content, Source}
use wx_extension.ExStream.Navigate.{on_input}
use wx_extension.ExStream.Navigate.Laws.{HasRoom, Reads}
use wx_extension.ExStream.Commands.{stream_lines, stream_to_temp, copy_temp_work, process, behind}

-- A stream is open, and a line fits the buffer.
pub record IsReady (s : State) : Type 0 where
  pub has_room : HasRoom s
  pub is_open : (w : Source) × (s.source ≡ some w)

-- The lines of the stream; the last one is empty where the stream ends in a newline.
abbrev pub lines_of : State → List Text
lines_of s = split s.line_size [] (content s)

-- The state behind the loop.
abbrev pub scanned : State → Text → Registers → List ℕ → State
scanned s unread registers buffer =
    record (on_input (λ i. clear (after_gets (content s) unread (seekg 0 (clear i)))) s) {
      registers = registers;
      current_line = buffer;
    }

pub scanned-Reads :
    (s : State) (unread : Text) (registers : Registers) (buffer : List ℕ)
    → registers ≡ s.registers
    → length buffer ≡ length s.current_line
    → Reads s (scanned s unread registers buffer)
scanned-Reads s unread registers buffer r l = ground arith

-- The loop over the whole stream, for a command that copies.
pub stream_lines-emit :
    (regex : Regex) (sl : StreamLine) (out : Text) (s : State)
    → Copies sl.action
    → HasRoom s
    → AllJoinable sl (lines_of s)
    → (s' : State) × (stream_lines regex sl out s
        ≡ some (advance_all sl (lines_of s), out ++ emit_all sl (lines_of s), s'))
      × Reads s s'
unfolding stream_lines
stream_lines-emit regex sl out s c h j =
    let (o', e, f, r, l) =
      scan-emit regex s.line_size (content s) 0 sl
        (record { file = out; registers = s.registers; buffer = s.current_line }) c h.room
        h.positive j in
    (scanned s [] o'.registers o'.buffer, rw (e, f), scanned-Reads s [] o'.registers o'.buffer r l)

-- What an editing command leaves, with the new content of the stream.
pub record IsEdited (s s' : State) (text : Text) : Type 0 where
  pub content_lem : content s' ≡ text
  pub temp : s'.temp ≡ []
  pub file : s'.file ≡ s.file
  pub modified : s'.is_modified ≡ true
  pub is_open : s'.source ≡ some work
  pub registers : s'.registers ≡ s.registers
  pub markers : s'.markers ≡ s.markers
  pub line_size : s'.line_size ≡ s.line_size
  pub buffer : length s'.current_line ≡ length s.current_line

pub IsEdited-Reads :
    {s t u : State} {text : Text} → IsEdited s t text → Reads t u → IsEdited s u text
IsEdited-Reads e r = ground arith

pub IsEdited-copy :
    {s t : State} (text : Text)
    → Reads s t
    → IsEdited s (copy_temp_work (record t { temp = text })) text
unfolding copy_temp_work
IsEdited-copy text r = ground arith

-- A line in the range makes the command an edit: the lines are copied back.
abbrev pub Edits : Action → Type 0
Edits a = Copies a × (a ≢ write)

stream_to_temp-behind :
    (regex : Regex) (range : Range) (sl sl' : StreamLine) (text : Text) (s t : State)
    → is_ok range ≡ true
    → stream_lines regex sl s.temp s ≡ some (sl', text, t)
    → Edits sl'.action
    → 0 < sl'.actions
    → stream_to_temp regex range sl s
      ≡ some (behind sl' (copy_temp_work (record t { temp = text })))
unfolding stream_to_temp
stream_to_temp-behind regex range sl sl' text s t ok e edits hits = ground arith

pub process-behind :
    (regex : Regex) (range : Range) (sl sl' : StreamLine) (next : StreamLine → State → Option State)
    (s t : State) {w : Source}
    → s.source ≡ some w
    → stream_to_temp regex range sl s ≡ some (behind sl' t)
    → process regex range sl next s ≡ (next sl' t >>= λ s''. some (true, s''))
unfolding process
process-behind regex range sl sl' next s t o e = ground arith

keep-Edits : {a b : Action} → b ≡ a → Edits a → Edits b
keep-Edits {a} {b} e h = subst Edits (sym e) h

pub process-IsEdited :
    (regex : Regex) (range : Range) (sl : StreamLine) (next : StreamLine → State → Option State)
    (s : State)
    → IsReady s
    → is_ok range ≡ true
    → Edits sl.action
    → AllJoinable sl (lines_of s)
    → 0 < (advance_all sl (lines_of s)).actions
    → (advance_all sl (lines_of s)).action ≡ sl.action
    → (s' : State) × (process regex range sl next s
        ≡ (next (advance_all sl (lines_of s)) s' >>= λ s''. some (true, s'')))
      × IsEdited s s' (s.temp ++ emit_all sl (lines_of s))
process-IsEdited regex range sl next s ready ok (copies, ne) j hits keeps =
    let (t, e, reads) = stream_lines-emit regex sl s.temp s copies ready.has_room j in
    (
      copy_temp_work (record t { temp = s.temp ++ emit_all sl (lines_of s) }),
      process-behind regex range sl (advance_all sl (lines_of s)) next s _ ready.is_open.1
          (stream_to_temp-behind regex range sl _ _ s t ok e (keep-Edits keeps (copies, ne)) hits),
      IsEdited-copy (s.temp ++ emit_all sl (lines_of s)) reads,
    )
