-- ===== src/ExStream/Requests/Count.antt =====
-- The count of the lines of a stream (src/vi/ex-stream.cpp: get_line_count_request).
use wx_extension.Prelude.{
  ℕ, zero, suc, ◌+◌, ◌<◌, ◌≤◌, ◌≡◌, Bool, true, false, some, [], ◌∷◌, Text, length, take, arith,
  refl, ap, pos, ◌==◌, newline, if◌then◌else◌,
}
use wx_extension.ExStream.Stream.{Input, clear, seekg, tellg, read}
use wx_extension.ExStream.State.{State, Source, content, input}
use wx_extension.ExStream.Navigate.{on_input}
use wx_extension.ExStream.Requests.{
  Counting, count_chars, count_lines, get_line_count_request, newlines, last_char, buffer_size,
  seek_to,
}

take-all : (n : ℕ) (t : Text) → length t ≤ n → take n t ≡ t
take-all zero [] h = refl
take-all zero (c ∷ t) h = absurd (omega arith)
take-all (suc n) [] h = refl
take-all (suc n) (c ∷ t) h = ap (c ∷◌) (take-all n t (omega arith))

read-all :
    (n k : ℕ) (text : Text)
    → length text < n
    → read n text (record { at = 0; eof = false; fail = false; count = k })
      ≡ (text, record { at = length text; eof = true; fail = true; count = length text })
unfolding read
read-all n k text h = ground (arith, take-all n text)

count_chars-newlines :
    (text : Text) (i : Input) (k : Counting)
    → k.block_mode ≡ false
    → k.line_no ≡ 0
    → 0 < newlines text
    → count_chars text i k
      ≡ record { line_no = newlines text; block_mode = false; chars = text; at = i }
unfolding count_chars
count_chars-newlines text i k b l n = ground arith

count_lines-once :
    (rounds k : ℕ) (text : Text) (block : Bool)
    → block ≡ false
    → length text < buffer_size
    → 0 < newlines text
    → count_lines (suc (suc rounds)) text (record {
      line_no = 0;
      block_mode = block;
      chars = [];
      at = record { at = 0; eof = false; fail = false; count = k };
    })
      ≡ some (record {
        line_no = newlines text;
        block_mode = false;
        chars = text;
        at = record { at = length text; eof = true; fail = true; count = length text };
      })
unfolding count_lines
count_lines-once rounds k text block b h n =
    let at : Input = record { at = length text; eof = true; fail = true; count = length text } in
    ground (
      arith,
      read-all buffer_size k text h,
      count_chars-newlines text at
          (record {
            line_no = 0;
            block_mode = block;
            chars = [];
            at = record { at = 0; eof = false; fail = false; count = k };
          })
          b refl n,
    )

-- For a stream that is open, has less than a million chars, ends in the char `c`, holds a newline,
-- and is not in block mode: the count is that of the newlines, and one more where `c` is not a
-- newline; it is kept as the last line number, and the block mode and the content stay.
pub get_line_count_request-newlines :
    (s : State) (w : Source) (c : ℕ)
    → s.source ≡ some w
    → s.block_mode ≡ false
    → length (content s) < buffer_size
    → last_char (content s) ≡ some c
    → 0 < newlines (content s)
    → (s' : State) × (get_line_count_request s
        ≡ some (pos (newlines (content s) + (if c == newline then 0 else 1)), s'))
      × (s'.last_line_no ≡ pos (newlines (content s) + (if c == newline then 0 else 1)))
      × (s'.block_mode ≡ false)
      × (content s' ≡ content s)
unfolding get_line_count_request seekg clear
get_line_count_request-newlines s w c o b h l n =
    let at : Input = record {
      at = length (content s);
      eof = true;
      fail = true;
      count = length (content s);
    } in
    (
      record (on_input (λ i. seek_to (tellg (input s)) (clear at)) s) {
        block_mode = false;
        last_line_no = pos (newlines (content s) + (if c == newline then 0 else 1));
      },
      ground (
        arith,
        count_lines-once (length (content s)) (input s).count (content s) s.block_mode b h n,
      ),
      refl,
      refl,
      ground arith,
    )
