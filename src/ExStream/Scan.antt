-- ===== src/ExStream/Scan.antt =====
-- The loop STREAM_LINE_ON_CHAR of src/vi/ex-stream.cpp, from the first `get` to the last `handle`:
-- the chars of the stream are put into the current line buffer, and a line is handed over at a
-- newline or when the buffer is full. A store behind the buffer is `none`.
pub mod Split
pub mod Step
pub mod Emit
pub mod Joinable
pub mod Ranges
pub mod Rewrite
pub mod Yank
pub mod YankRanges
use wx_extension.Prelude.{
  ℕ, suc, true, false, ◌||◌, Option, none, some, [], ◌∷◌, Text, length, set, ltb, ◌==◌, newline,
  if◌then◌else◌, ◌>>=◌,
}
use wx_extension.ExStream.Line.{Regex, stop, StreamLine, Output, handle}

-- m_current_line[i] = c
unfoldable pub store : ℕ → ℕ → Output → Option Output
store i c o =
    if ltb i (length o.buffer) then some (record o { buffer = set o.buffer i c }) else none

module _ (regex : Regex) where
  -- The call of `handle` behind the loop; with its effects the chars that were not read.
  unfoldable pub finish : Text → ℕ → StreamLine → Output → Option (StreamLine × Output × Text)
  finish rest i sl o = do h ← handle regex sl i o; some (h.sl, h.output, rest)

  module _ (size : ℕ) where
    unfoldable pub scan : Text → ℕ → StreamLine → Output → Option (StreamLine × Output × Text)
    unfolding finish store
    scan [] i sl o = finish [] i sl o
    scan (c ∷ rest) i sl o = do
      o' ← store i c o
      elim (c == newline || suc i == size) [
        | false ↦ scan rest (suc i) sl o'
        | true ↦ handle regex sl (suc i) o' >>= λ h. elim h.result [
          | stop ↦ finish rest h.n h.sl h.output
          | _ ↦ scan rest h.n h.sl h.output
        ]
      ]
