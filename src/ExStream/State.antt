-- ===== src/ExStream/State.antt =====
-- The members of class ex_stream (src/vi/ex-stream.cpp, include/wex/ex-stream.h), and what its
-- methods change outside: the registers, the status message and the text that was found last.
-- Showing lines in the component is not modelled. Streams are never bad, and opening and removing
-- the temporary files succeeds.
use wx_extension.Prelude.{ℕ, Bool, false, Option, none, some, List, [], Text, ℤ, negsuc}
use wx_extension.Macros.Registers.{Registers}
use wx_extension.ExStream.Stream.{Input, fresh}

-- The file that m_stream points into.
pub data Source : Type 0 where
  file work : Source

pub data Message : Type 0 where
  fewer_lines yanked : ℕ → Message
  replaced : ℕ → Text → Message
  not_found : Text → Message

pub record State : Type 0 where
  pub source : Option Source
  pub file : Text
  pub work : Text
  pub temp : Text
  pub file_input : Input
  pub work_input : Input
  pub is_modified : Bool
  pub block_mode : Bool
  pub line_no : ℤ
  pub last_line_no : ℤ
  pub line_size : ℕ
  pub current_line : List ℕ
  pub markers : ℕ → Option ℕ
  pub registers : Registers
  pub message : Option Message
  pub find_string : Text

abbrev pub default_line_size : ℕ
default_line_size = 1000

-- LINE_COUNT_UNKNOWN, LINE_NUMBER_UNKNOWN
abbrev pub unknown : ℤ
unknown = negsuc 0

-- *m_stream, or what stands in its place before `stream` is called.
abbrev pub content : State → Text
content s = elim s.source [ none ↦ [] | some file ↦ s.file | some work ↦ s.work ]

abbrev pub input : State → Input
input s = elim s.source [ none ↦ fresh | some file ↦ s.file_input | some work ↦ s.work_input ]

abbrev pub set_input : Input → State → State
set_input i s = elim s.source [
  | none ↦ s
  | some file ↦ record s { file_input = i }
  | some work ↦ record s { work_input = i }
]

-- The constructor; the line buffer, which C++ leaves uninitialised, is `memory`.
abbrev pub new : List ℕ → Registers → State
new memory registers = record {
  source = none;
  file = [];
  work = [];
  temp = [];
  file_input = fresh;
  work_input = fresh;
  is_modified = false;
  block_mode = false;
  line_no = unknown;
  last_line_no = unknown;
  line_size = default_line_size;
  current_line = memory;
  markers = λ _. none;
  registers = registers;
  message = none;
  find_string = [];
}
