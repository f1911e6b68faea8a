-- ===== src/ExStream/Commands.antt =====
-- The commands of class ex_stream (src/vi/ex-stream.cpp): copy, erase, insert_text, join,
-- substitute, write, yank, the markers, and the count of the lines. `none` is behaviour that C++
-- leaves undefined.
pub mod Edits
pub mod Join
pub mod Rewrite
pub mod Results
pub mod Write
pub mod Yank
use wx_extension.Prelude.{
  ◌>>=◌, ℕ, ◌+◌, ◌-◌, Bool, true, false, not, Option, none, some, [], Text, ℤ, pos, negsuc, sub_ℕ,
  ltb, min, ◌==◌, if◌then◌else◌,
}
use wx_extension.ExStream.Line.{
  Regex, StreamLine, Range, Substitute, is_ok, erase, join, write, yank, new_action, new_insert,
  new_substitute, new_yank,
}
use wx_extension.ExStream.Scan.{scan}
use wx_extension.ExStream.Stream.{fresh, clear, seekg, after_gets}
use wx_extension.ExStream.State.{State, file, work, unknown, fewer_lines, replaced, content}
use wx_extension.ExStream.Navigate.{on_input, goto_line}

-- copy(m_temp, m_work): the target has the content, the origin is empty, and m_stream is the
-- target.
unfoldable pub copy_temp_work : State → State
copy_temp_work s = record s {
  work = s.temp;
  temp = [];
  source = some work;
  work_input = fresh;
  is_modified = true;
}

-- copy(m_work, m_file)
unfoldable pub copy_work_file : State → State
copy_work_file s = record s {
  file = s.work;
  work = [];
  source = some file;
  file_input = fresh;
  work_input = fresh;
  is_modified = true;
}

-- How the macro STREAM_LINE_ON_CHAR ended: by a return, or going on behind it.
pub data Processed : Type 0 where
  returned : Bool → State → Processed
  behind : StreamLine → State → Processed

-- The count and the message behind erase and join.
abbrev pub lines_removed : StreamLine → State → State
lines_removed sl s = record s {
  last_line_no = sub_ℕ sl.line (sl.actions + 1);
  message = some (fewer_lines sl.actions);
}

-- What addressrange(ex, "n,m") gives for a line number: no more than the known count.
abbrev pub clamp : ℕ → State → ℕ
clamp n s = elim s.last_line_no [ pos count ↦ min n count | negsuc _ ↦ n ]

module _ (regex : Regex) where
  -- The loop over the stream; the lines are written to `out`, which is given back.
  unfoldable pub stream_lines : StreamLine → Text → State → Option (StreamLine × Text × State)
  stream_lines sl out s = do
    r ←
        scan regex s.line_size (content s) 0 sl
          (record { file = out; registers = s.registers; buffer = s.current_line })
    some (
      r.0,
      r.1.file,
      record (on_input (λ i. clear (after_gets (content s) r.2 (seekg 0 (clear i)))) s) {
        registers = r.1.registers;
        current_line = r.1.buffer;
      },
    )

  -- The macro for a command that writes to m_temp.
  unfoldable pub stream_to_temp : Range → StreamLine → State → Option Processed
  stream_to_temp range sl s = if not (is_ok range) then some (returned false s) else (do
    r ← stream_lines sl s.temp s
    let s' = record (r.2) { temp = r.1 }
    some (elim r.0.action [
      | yank ↦ returned true s'
      | write ↦ behind r.0 s'
      | _ ↦ behind r.0 (if ltb 0 r.0.actions then copy_temp_work s' else s')
    ]))

  -- The macro, and what the command does behind it.
  unfoldable pub process :
      Range → StreamLine → (StreamLine → State → Option State) → State → Option (Bool × State)
  process range sl next s = elim s.source [
    | none ↦ some (false, s)
    | some _ ↦ (do
      r ← stream_to_temp range sl s
      elim r [
        | returned b s' ↦ some (b, s')
        | behind sl' s' ↦ (do s'' ← next sl' s'; some (true, s''))
      ])
  ]

  unfoldable pub erase_lines : Range → State → Option (Bool × State)
  erase_lines range s =
      process range (new_action erase range) (λ sl s'. goto_line 0 (lines_removed sl s')) s

  unfoldable pub join_lines : Range → State → Option (Bool × State)
  join_lines range s =
      process range (new_action join range)
        (λ sl s'. goto_line (range.begin_line - 1) (lines_removed sl s')) s

  unfoldable pub substitute_lines : Range → Substitute → State → Option (Bool × State)
  substitute_lines range d s =
      process range (new_substitute range d)
        (λ sl s'. goto_line 0 (record s' { message = some (replaced sl.actions d.pattern) })) s

  -- The line is that of the address, one on for INSERT_AFTER.
  unfoldable pub insert_text : ℕ → Bool → Text → State → Option (Bool × State)
  insert_text address_line is_after text s =
      let line = if is_after then address_line + 1 else address_line in
      let range : Range = record { begin_line = clamp line s; end_line = clamp (line + 1) s } in
      process range (new_insert range text) (λ sl s'. goto_line line s') s

  -- The register is emptied before the range is looked at.
  unfoldable pub yank_lines : Range → ℕ → State → Option (Bool × State)
  yank_lines range name s = elim s.source [
    | none ↦ some (false, s)
    | some _ ↦
        let (sl, registers) = new_yank range name s.registers in
        process range sl (λ _ s'. some s') (record s { registers = registers })
  ]

  -- write(range, filename, append): with the new content of the named file, whose content was
  -- `old`. It is opened, and cut unless appended to, before the range is looked at.
  unfoldable pub write_lines : Range → Bool → Text → State → Option (Bool × Text × State)
  write_lines range append old s = elim s.source [
    | none ↦ some (false, old, s)
    | some _ ↦
        let opened = if append then old else [] in
        if not (is_ok range)
        then some (false, opened, s)
        else (do r ← stream_lines (new_action write range) opened s; some (true, r.1, r.2))
  ]

-- write()
unfoldable pub write_file : State → Option (Bool × State)
write_file s = elim s.source [
  | none ↦ none
  | some _ ↦ some (true, record (copy_work_file s) { is_modified = false })
]

-- stream(f), with the content of f, or nothing where f is not open.
unfoldable pub stream : Option Text → State → Option State
stream none s = some s
stream (some text) s = goto_line 0 (record s {
  source = some file;
  file = text;
  file_input = fresh;
  work = [];
  work_input = fresh;
  temp = [];
})

-- marker_add(marker, line), a `char` that is not ASCII being 128 or more.
unfoldable pub marker_add : ℕ → ℤ → State → Bool × State
marker_add marker (negsuc _) s = (false, s)
marker_add marker (pos line) s =
    if not (ltb marker 128)
    then (false, s)
    else (true, record s { markers = λ k. if k == marker then some line else s.markers k })

unfoldable pub marker_delete : ℕ → State → Bool × State
marker_delete marker s = elim (s.markers marker) [
  | some _ ↦ (true, record s { markers = λ k. if k == marker then none else s.markers k })
  | none ↦ (false, s)
]

unfoldable pub marker_line : ℕ → State → ℤ
marker_line marker s = elim (s.markers marker) [ some line ↦ pos line | none ↦ unknown ]
