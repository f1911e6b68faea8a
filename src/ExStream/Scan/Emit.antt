-- ===== src/ExStream/Scan/Emit.antt =====
-- The loop over the stream (src/vi/ex-stream.cpp) against the specification of what is written for
-- its lines, for the commands that copy the stream: erase, insert, join and write.
use wx_extension.Prelude.{
  ℕ, zero, suc, ◌-◌, ◌<◌, ◌≤◌, ◌≡◌, true, ◌||◌, List, [], ◌∷◌, ◌++◌, Text, length, take, set, ◌==◌,
  newline, append_assoc, append-nil, arith, refl, ◌∙◌, ap, Bool-cases, inl, inr, Option, some,
  length-set,
}
use wx_extension.ExStream.Line.{
  Action, StreamLine, Output, Regex, go_on, join, substitute, yank, in_range, handle,
}
use wx_extension.ExStream.Scan.{scan}
use wx_extension.ExStream.Scan.Step.{
  take-length, room-left, stored, scan-within, scan-handled, split-stored-handled,
  split-stored-within,
}
use wx_extension.ExStream.Scan.Split.{split, emit, advance, emit_all, advance_all}

abbrev pub Copies : Action → Type 0
Copies substitute = ⊥
Copies yank = ⊥
Copies _ = Unit

take-take : (k n : ℕ) (b : List ℕ) → k ≤ n → take k (take n b) ≡ take k b
take-take zero n b h = refl
take-take (suc k) zero b h = absurd (omega arith)
take-take (suc k) (suc n) [] h = refl
take-take (suc k) (suc n) (x ∷ b) h = ap (x ∷◌) (take-take k n b (omega arith))

-- All that a join needs: a line that it shortens is not empty.
abbrev pub Joinable : StreamLine → Text → Type 0
Joinable sl x = sl.action ≡ join → in_range sl ≡ true → 0 < length x

module _ (regex : Regex) (n : ℕ) (o : Output) where
  handle-emit :
      (sl : StreamLine)
      → Copies sl.action
      → n ≤ length o.buffer
      → Joinable sl (take n o.buffer)
      → handle regex sl n o
        ≡ some (record {
          result = go_on;
          sl = advance sl;
          output = record o { file = o.file ++ emit sl (take n o.buffer) };
          n = 0;
        })
  unfolding handle
  handle-emit sl c h j = ground (
    arith,
    append-nil o.file,
    append_assoc o.file sl.text (take n o.buffer),
    take-length n o.buffer,
    take-take (n - 1) n o.buffer,
  )

-- The loop ended well, has passed `lines`, and has written what they give.
abbrev pub Emits : Option (StreamLine × Output × Text) → StreamLine → Output → List Text → Type 0
Emits r sl o lines =
    (o' : Output) × (r ≡ some (advance_all sl lines, o', []))
    × (o'.file ≡ o.file ++ emit_all sl lines)
    × (o'.registers ≡ o.registers)
    × (length o'.buffer ≡ length o.buffer)

abbrev pub AllJoinable : StreamLine → List Text → Type 0
AllJoinable sl [] = Unit
AllJoinable sl (x ∷ xs) = Joinable sl x × AllJoinable (advance sl) xs

pub Copies-advance : (sl : StreamLine) → Copies sl.action → Copies (advance sl).action
Copies-advance sl c = ground arith

module _ (regex : Regex) (size : ℕ) where
  Emits-end :
      (i : ℕ) (sl : StreamLine) (o : Output)
      → Copies sl.action
      → i ≤ length o.buffer
      → Joinable sl (take i o.buffer)
      → Emits (scan regex size [] i sl o) sl o (take i o.buffer ∷ [])
  unfolding scan
  Emits-end i sl o c h j = (
    record o { file = o.file ++ emit sl (take i o.buffer) },
    rw (handle-emit regex i o sl c h j),
    rw append-nil,
    refl,
    refl,
  )

  Emits-cons :
      (text : Text) (sl : StreamLine) (o o₁ : Output) (x : Text) (xs : List Text)
      → o₁.file ≡ o.file ++ emit sl x
      → o₁.registers ≡ o.registers
      → length o₁.buffer ≡ length o.buffer
      → Emits (scan regex size text 0 (advance sl) o₁) (advance sl) o₁ xs
      → Emits (scan regex size text 0 (advance sl) o₁) sl o (x ∷ xs)
  Emits-cons text sl o o₁ x xs f r l (o', e, f', r', l') =
      (o', e, rw (f', f, append_assoc), r' ∙ r, l' ∙ l)

  -- For erase, insert, join and write, a buffer of at least `size` chars, any position before
  -- `size`, and no empty line that a join would shorten: the loop ends with the stream read to its
  -- end, has written for each line, of the chars in the buffer and the rest of the stream, what the
  -- specification says, in order, and leaves the registers and the size of the buffer.
  pub scan-emit :
      (text : Text) (i : ℕ) (sl : StreamLine) (o : Output)
      → Copies sl.action
      → size ≤ length o.buffer
      → i < size
      → AllJoinable sl (split size (take i o.buffer) text)
      → Emits (scan regex size text i sl o) sl o (split size (take i o.buffer) text)
  scan-emit [] i sl o c hs hi j =
      unfold split in Emits-end i sl o c (omega arith) (unfold split in j.0)
  scan-emit (c ∷ rest) i sl o a hs hi j = elim (Bool-cases (c == newline || suc i == size)) [
    | inl e ↦
        let lines = split-stored-handled size c rest i o.buffer (omega arith) e in
        let j' : AllJoinable sl (take (suc i) (set o.buffer i c) ∷ split size [] rest) =
          rw lines at j in
        let o₁ : Output = record o {
          buffer = set o.buffer i c;
          file = o.file ++ emit sl (take (suc i) (set o.buffer i c));
        } in
        let l = length-set o.buffer i c in
        rw
          (
            lines,
            scan-handled regex size c rest i sl o (omega arith) e
                (handle-emit regex (suc i) (stored o i c) sl a (omega arith) j'.0),
          )
          (Emits-cons rest sl o o₁ (take (suc i) (set o.buffer i c)) (split size [] rest) refl refl
            l
            (scan-emit rest 0 (advance sl) o₁ (Copies-advance sl a) (omega arith) (omega arith)
              j'.1))
    | inr e ↦
        let lines = split-stored-within size c rest i o.buffer (omega arith) e in
        let l = length-set o.buffer i c in
        rw (lines, scan-within regex size c rest i sl o (omega arith) e)
          (let (o', q, f, r, l') =
              scan-emit rest (suc i) sl (stored o i c) a (omega arith) (room-left c i size e hi)
                (rw lines at j) in
            (o', q, f, r, l' ∙ l))
  ]
