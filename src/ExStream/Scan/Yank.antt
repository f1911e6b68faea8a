-- ===== src/ExStream/Scan/Yank.antt =====
-- The loop over the stream (src/vi/ex-stream.cpp), for the command that copies lines to a register.
use wx_extension.Prelude.{
  ℕ, suc, ◌<◌, ◌≤◌, ◌≡◌, Bool, true, false, ◌||◌, List, [], ◌∷◌, ◌++◌, Text, length, take, concat,
  set, ◌==◌, newline, if◌then◌else◌, append_assoc, append-nil, arith, refl, sym, ◌∙◌, ap,
  Bool-cases, inl, inr, Option, some, length-set, pos, ltb_ℤ,
}
use wx_extension.Macros.Registers.{Registers, get_register, set_register}
use wx_extension.ExStream.Line.{StreamLine, Output, Regex, go_on, stop, yank, in_range, handle}
use wx_extension.ExStream.Scan.{scan, finish}
use wx_extension.ExStream.Scan.Split.{split, advance}
use wx_extension.ExStream.Scan.Step.{
  stored, scan-within, scan-handled, room-left, split-stored-within, split-stored-handled,
}

abbrev pub past_end : StreamLine → Bool
past_end sl = ltb_ℤ sl.end_line (pos sl.line)

-- A line in the range is appended to the register.
abbrev pub append_register : ℕ → Text → Registers → Registers
append_register name x r = (set_register name (get_register name r ++ x) r).0

abbrev pub yanked : StreamLine → Registers → List Text → Registers
yanked sl r [] = r
yanked sl r (x ∷ xs) =
    yanked (advance sl) (if in_range sl then append_register sl.register x r else r) xs

-- The lines that stand before the range.
abbrev pub preceding : StreamLine → List Text → List Text
preceding sl [] = []
preceding sl (x ∷ xs) =
    (if in_range sl || past_end sl then [] else x ∷ []) ++ preceding (advance sl) xs

pub yanked-past :
    (sl : StreamLine) (r : Registers) (xs : List Text) → past_end sl ≡ true → yanked sl r xs ≡ r
yanked-past sl r [] h = refl
yanked-past sl r (x ∷ xs) h = ground (arith, yanked-past (advance sl) r xs)

pub preceding-past : (sl : StreamLine) (xs : List Text) → past_end sl ≡ true → preceding sl xs ≡ []
preceding-past sl [] h = refl
preceding-past sl (x ∷ xs) h = ground (arith, preceding-past (advance sl) xs)

module _ (regex : Regex) (n : ℕ) (o : Output) (sl : StreamLine) (y : sl.action ≡ yank) where
  handle-yank :
      n ≤ length o.buffer
      → past_end sl ≡ false
      → handle regex sl n o
        ≡ some (record {
          result = go_on;
          sl = advance sl;
          output = record o {
            file = o.file ++ concat (preceding sl (take n o.buffer ∷ []));
            registers = yanked sl o.registers (take n o.buffer ∷ []);
          };
          n = 0;
        })
  unfolding handle
  handle-yank h p = ground (arith, append-nil o.file, append-nil (take n o.buffer))

  handle-stop :
      past_end sl ≡ true
      → handle regex sl n o ≡ some (record { result = stop; sl = sl; output = o; n = n })
  unfolding handle
  handle-stop p = ground arith

module _ (regex : Regex) (size c : ℕ) (rest : Text) (i : ℕ) (sl : StreamLine) (o : Output) where
  -- A line behind the range ends the loop.
  scan-stop :
      i < length o.buffer
      → sl.action ≡ yank
      → past_end sl ≡ true
      → (c == newline || suc i == size) ≡ true
      → scan regex size (c ∷ rest) i sl o ≡ some (sl, stored o i c, rest)
  unfolding scan
  scan-stop h y p e = ground (arith, handle-stop regex (suc i) (stored o i c) sl y)

abbrev pub Yanks : Option (StreamLine × Output × Text) → StreamLine → Output → List Text → Type 0
Yanks r sl o lines =
    (sl' : StreamLine) × (o' : Output) × (unread : Text) × (r ≡ some (sl', o', unread))
    × (o'.file ≡ o.file ++ concat (preceding sl lines))
    × (o'.registers ≡ yanked sl o.registers lines)
    × (length o'.buffer ≡ length o.buffer)
    × (sl'.action ≡ yank)

action-advance : (sl : StreamLine) → sl.action ≡ yank → (advance sl).action ≡ yank
action-advance sl y = ground arith

-- Behind the range nothing more is copied.
Yanks-past :
    (r : Option (StreamLine × Output × Text)) (sl : StreamLine) (o : Output) (b : List ℕ)
    (unread : Text) (lines : List Text)
    → sl.action ≡ yank
    → past_end sl ≡ true
    → length b ≡ length o.buffer
    → r ≡ some (sl, record o { buffer = b }, unread)
    → Yanks r sl o lines
Yanks-past r sl o b unread lines y p l e = (
  sl,
  record o { buffer = b },
  unread,
  e,
  rw (preceding-past sl lines p) (sym (append-nil o.file)),
  sym (yanked-past sl o.registers lines p),
  l,
  y,
)

preceding-cons :
    (sl : StreamLine) (x : Text) (xs : List Text)
    → concat (preceding sl (x ∷ xs))
      ≡ concat (preceding sl (x ∷ [])) ++ concat (preceding (advance sl) xs)
preceding-cons sl x xs = ground (arith, append-nil x)

file-preceding :
    (f : Text) (sl : StreamLine) (x : Text) (xs : List Text)
    → (f ++ concat (preceding sl (x ∷ []))) ++ concat (preceding (advance sl) xs)
      ≡ f ++ concat (preceding sl (x ∷ xs))
file-preceding f sl x xs = append_assoc f _ _ ∙ sym (ap (f ++◌) (preceding-cons sl x xs))

module _ (regex : Regex) (size : ℕ) where
  Yanks-end :
      (i : ℕ) (sl : StreamLine) (o : Output)
      → sl.action ≡ yank
      → i ≤ length o.buffer
      → past_end sl ≡ false
      → Yanks (finish regex [] i sl o) sl o (take i o.buffer ∷ [])
  unfolding finish
  Yanks-end i sl o y h p = (
    advance sl,
    record o {
      file = o.file ++ concat (preceding sl (take i o.buffer ∷ []));
      registers = yanked sl o.registers (take i o.buffer ∷ []);
    },
    [],
    rw (handle-yank regex i o sl y h p),
    refl,
    refl,
    refl,
    action-advance sl y,
  )

  -- For a yank, a buffer of at least `size` chars, and any position before `size`: the loop ends;
  -- of the lines of the chars in the buffer and the rest of the stream, those of the range are
  -- appended to the register in order, those before the range are written, and the size of the
  -- buffer stays.
  pub scan-yank :
      (text : Text) (i : ℕ) (sl : StreamLine) (o : Output)
      → sl.action ≡ yank
      → size ≤ length o.buffer
      → i < size
      → Yanks (scan regex size text i sl o) sl o (split size (take i o.buffer) text)
  scan-yank [] i sl o y hs hi = elim (Bool-cases (past_end sl)) [
    | inl p ↦
        Yanks-past (scan regex size [] i sl o) sl o o.buffer [] (split size (take i o.buffer) []) y
          p refl (unfold scan in rw (handle-stop regex i o sl y p))
    | inr p ↦ unfold scan split in Yanks-end i sl o y (omega arith) p
  ]
  scan-yank (c ∷ rest) i sl o y hs hi = elim (Bool-cases (c == newline || suc i == size)) [
    | inl e ↦
        let lines = split-stored-handled size c rest i o.buffer (omega arith) e in
        let l = length-set o.buffer i c in
        rw lines (elim (Bool-cases (past_end sl)) [
          | inl p ↦
              Yanks-past (scan regex size (c ∷ rest) i sl o) sl o (set o.buffer i c) rest
                (take (suc i) (set o.buffer i c) ∷ split size [] rest) y p l
                (scan-stop regex size c rest i sl o (omega arith) y p e)
          | inr p ↦
              rw
                (scan-handled regex size c rest i sl o (omega arith) e
                  (handle-yank regex (suc i) (stored o i c) sl y (omega arith) p))
                (let (sl', o', u, q, f, r, l', y') =
                    scan-yank rest 0 (advance sl)
                      (record o {
                        buffer = set o.buffer i c;
                        file =
                            o.file ++ concat (preceding sl (take (suc i) (set o.buffer i c) ∷ []));
                        registers = yanked sl o.registers (take (suc i) (set o.buffer i c) ∷ []);
                      })
                      (action-advance sl y) (omega arith) (omega arith) in
                  (
                    sl',
                    o',
                    u,
                    q,
                    f
                        ∙ file-preceding o.file sl (take (suc i) (set o.buffer i c))
                            (split size [] rest),
                    r,
                    l' ∙ l,
                    y',
                  ))
        ])
    | inr e ↦
        let lines = split-stored-within size c rest i o.buffer (omega arith) e in
        let l = length-set o.buffer i c in
        rw (lines, scan-within regex size c rest i sl o (omega arith) e)
          (let (sl', o', u, q, f, r, l', y') =
              scan-yank rest (suc i) sl (stored o i c) y (omega arith) (room-left c i size e hi) in
            (sl', o', u, q, f, r, l' ∙ l, y'))
  ]
