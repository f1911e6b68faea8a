-- ===== src/ExStream/Scan/Step.antt =====
-- One round of the loop over the stream (src/vi/ex-stream.cpp), and the lines that remain after it.
use wx_extension.Prelude.{
  ℕ, suc, ◌<◌, ◌≤◌, ◌≡◌, true, false, ◌||◌, List, [], ◌∷◌, Text, length, take, set, ◌==◌, newline,
  arith, length-take, take-set, some,
}
use wx_extension.ExStream.Line.{StreamLine, Output, Regex, go_on, handle}
use wx_extension.ExStream.Scan.{scan}
use wx_extension.ExStream.Scan.Split.{split}

pub take-length : (n : ℕ) (b : List ℕ) → n ≤ length b → length (take n b) ≡ n
take-length n b h = omega (arith, length-take n b)

pub room-left : (c i size : ℕ) → (c == newline || suc i == size) ≡ false → i < size → suc i < size
room-left c i size e h = ground arith

abbrev pub stored : Output → ℕ → ℕ → Output
stored o i c = record o { buffer = set o.buffer i c }

-- The loop, one char on.
module _ (regex : Regex) (size c : ℕ) (rest : Text) (i : ℕ) (sl : StreamLine) (o : Output) where
  pub scan-within :
      i < length o.buffer
      → (c == newline || suc i == size) ≡ false
      → scan regex size (c ∷ rest) i sl o ≡ scan regex size rest (suc i) sl (stored o i c)
  unfolding scan
  scan-within h e = ground arith

  pub scan-handled :
      {sl' : StreamLine} {o' : Output} {n : ℕ}
      → i < length o.buffer
      → (c == newline || suc i == size) ≡ true
      → handle regex sl (suc i) (stored o i c)
        ≡ some (record { result = go_on; sl = sl'; output = o'; n = n })
      → scan regex size (c ∷ rest) i sl o ≡ scan regex size rest n sl' o'
  unfolding scan
  scan-handled h e hh = ground arith

module _ (size : ℕ) where
  -- The lines that remain, after a char was stored.
  pub split-stored-handled :
      (c : ℕ) (rest : Text) (i : ℕ) (b : List ℕ)
      → i < length b
      → (c == newline || suc i == size) ≡ true
      → split size (take i b) (c ∷ rest) ≡ take (suc i) (set b i c) ∷ split size [] rest
  unfolding split
  split-stored-handled c rest i b h e =
      rw (take-set b i c h) (rw (take-length i b (omega arith), e, split))

  pub split-stored-within :
      (c : ℕ) (rest : Text) (i : ℕ) (b : List ℕ)
      → i < length b
      → (c == newline || suc i == size) ≡ false
      → split size (take i b) (c ∷ rest) ≡ split size (take (suc i) (set b i c)) rest
  unfolding split
  split-stored-within c rest i b h e =
      rw (take-set b i c h) (rw (take-length i b (omega arith), e, split))
