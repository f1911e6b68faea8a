-- ===== src/ExStream/Requests.antt =====
-- Requests of class ex_stream (src/vi/ex-stream.cpp): find and get_line_count_request. Both loops
-- are on fuel. `none` is fuel that is used up, or behaviour that C++ leaves undefined: a read
-- before the start of the buffer, or a search with no terminator.
pub mod Count
pub mod Reading
pub mod Find
use wx_extension.Prelude.{
  ℕ, zero, suc, ◌+◌, ◌/◌, Bool, true, false, not, ◌||◌, Option, none, some, List, [], ◌∷◌, Text,
  length, ℤ, pos, negsuc, ◌==◌, newline, if◌then◌else◌, ◌>>=◌,
}
use wx_extension.ExStream.Line.{strstr, found, missing, overrun}
use wx_extension.ExStream.Stream.{Input, clear, seekg, tellg, read}
use wx_extension.ExStream.State.{State, default_line_size, unknown, not_found, content, input}
use wx_extension.ExStream.Navigate.{on_input, get_next_line, get_previous_line, until_nul}

-- seekg of a position that tellg gave; that of a stream that has failed is refused.
abbrev pub seek_to : ℤ → Input → Input
seek_to (pos n) i = seekg n i
seek_to (negsuc n) i = record i { eof = false; fail = true }

abbrev pub buffer_size : ℕ
buffer_size = 1000000

abbrev pub newlines : Text → ℕ
newlines [] = 0
newlines (c ∷ t) = (if c == newline then 1 else 0) + newlines t

abbrev pub last_char : Text → Option ℕ
last_char [] = none
last_char (c ∷ []) = some c
last_char (c ∷ d ∷ t) = last_char (d ∷ t)

-- What the loop of get_line_count_request works on, with the chars of the last read.
pub record Counting : Type 0 where
  pub line_no : ℕ
  pub block_mode : Bool
  pub chars : Text
  pub at : Input

-- The body of the loop, for the chars that were read.
unfoldable pub count_chars : Text → Input → Counting → Counting
count_chars chars i k =
    let n = if k.block_mode then k.line_no else k.line_no + newlines chars in
    let block = k.block_mode || n == 0 in
    record {
      line_no = if block then n + buffer_size / default_line_size else n;
      block_mode = block;
      chars = chars;
      at = i;
    }

unfoldable pub count_lines : ℕ → Text → Counting → Option Counting
unfolding count_chars
count_lines zero text k = none
count_lines (suc rounds) text k =
    let r = read buffer_size text k.at in
    elim k.at.eof [ true ↦ some k | false ↦ count_lines rounds text (count_chars r.0 r.1 k) ]

-- A read takes all that is left or fills the buffer, so one round for each char, and two more, are
-- enough.
unfoldable pub get_line_count_request : State → Option (ℤ × State)
unfolding count_lines
get_line_count_request s = elim s.source [
  | none ↦ some (unknown, s)
  | some _ ↦ (do
    k ← count_lines (suc (suc (length (content s)))) (content s) (record {
      line_no = 0;
      block_mode = s.block_mode;
      chars = [];
      at = seekg 0 (clear (input s));
    })
    c ← last_char k.chars
    let n = if not (c == newline) then k.line_no + 1 else k.line_no
    some (
      pos n,
      record (on_input (λ i. seek_to (tellg (input s)) (clear k.at)) s) {
        block_mode = k.block_mode;
        last_line_no = pos n;
      },
    ))
]

-- A text as a regular expression: nothing where std::regex refuses it.
abbrev pub Search : Type 0
Search = Text → Option (Text → Bool)

-- Does the line buffer hold the text?
unfoldable pub on_line : Option (Text → Bool) → Text → List ℕ → Option Bool
unfolding strstr
on_line (some matches) text mem = some (matches (until_nul mem))
on_line none text mem = elim (strstr text 0 mem) [
  | found _ ↦ some true
  | missing ↦ some false
  | overrun ↦ none
]

abbrev pub next_or_previous : Bool → State → Option (Bool × State)
next_or_previous find_next s = if find_next then get_next_line s else get_previous_line s

unfoldable pub find_line : ℕ → Option (Text → Bool) → Text → Bool → State → Option (Bool × State)
unfolding on_line
find_line zero regex text find_next s = none
find_line (suc rounds) regex text find_next s = next_or_previous find_next s >>= λ r. elim r.0 [
  | false ↦ some (false, r.1)
  | true ↦ on_line regex text (r.1).current_line >>= λ b. elim b [
    | true ↦ some (true, r.1)
    | false ↦ find_line rounds regex text find_next r.1
  ]
]

-- The part of find behind the loop, where it began with `line_no` at `at`.
abbrev pub end_find : Text → ℤ → ℤ → Bool × State → Bool × State
end_find text line_no at (b, s) =
    let s' = record s { line_size = default_line_size } in
    if b then (true, record s' { find_string = text }) else (
      false,
      record (on_input (λ i. seek_to at (clear i)) s') {
        line_no = line_no;
        message = some (not_found text);
      },
    )

-- `regex` is none unless the find settings ask for regular expressions.
unfoldable pub find : ℕ → Option Search → Text → Bool → State → Option (Bool × State)
unfolding find_line
find rounds regex text find_next s = elim s.source [
  | none ↦ some (false, s)
  | some _ ↦
      let start = on_input clear s in
      let search = λ (m : Option (Text → Bool)). (do
        r ← find_line rounds m text find_next start
        some (end_find text s.line_no (tellg (input s)) r)) in
      elim regex [
        | none ↦ search none
        | some compile ↦ elim (compile text) [ none ↦ some (false, s) | some m ↦ search (some m) ]
      ]
]
