-- ===== src/ExStream/Scan/Joinable.antt =====
-- Where a join (src/vi/ex-stream-line.cpp) is defined: every line that it shortens has a char.
use wx_extension.Prelude.{
  ℕ, suc, ◌+◌, ◌<◌, ◌≡◌, ◌≢◌, newline, ◌==◌, ◌||◌, length-append, true, List, [], ◌∷◌, ◌++◌, Text,
  length, arith, sym, ◌∙◌, pos, Bool-cases, inl, inr,
}
use wx_extension.ExStream.Line.{StreamLine, join, in_range}
use wx_extension.ExStream.Scan.Split.{split, advance}
use wx_extension.ExStream.Scan.Emit.{AllJoinable}

action-advance : (sl : StreamLine) → (advance sl).action ≡ sl.action
action-advance sl = ground arith

pub AllJoinable-of_ne : (sl : StreamLine) (xs : List Text) → sl.action ≢ join → AllJoinable sl xs
AllJoinable-of_ne sl [] ne = tt
AllJoinable-of_ne sl (x ∷ xs) ne = (
  (λ e. absurd (ne e)),
  AllJoinable-of_ne (advance sl) xs (λ e. ne (sym (action-advance sl) ∙ e)),
)

-- Every line but the last has a char.
abbrev pub AllButLast : List Text → Type 0
AllButLast [] = Unit
AllButLast (x ∷ []) = Unit
AllButLast (x ∷ y ∷ ys) = (0 < length x) × AllButLast (y ∷ ys)

AllButLast-cons : (x : Text) (xs : List Text) → 0 < length x → AllButLast xs → AllButLast (x ∷ xs)
AllButLast-cons x [] h a = tt
AllButLast-cons x (y ∷ ys) h a = (h, a)

pub split-AllButLast : (size : ℕ) (current text : Text) → AllButLast (split size current text)
unfolding split
split-AllButLast size current [] = tt
split-AllButLast size current (c ∷ rest) =
    elim (Bool-cases (c == newline || suc (length current) == size)) [
      | inl e ↦
          rw (e, split)
            (AllButLast-cons (current ++ c ∷ []) (split size [] rest)
              (omega (arith, length-append current (c ∷ []))) (split-AllButLast size [] rest))
      | inr e ↦ rw (e, split) (split-AllButLast size (current ++ c ∷ []) rest)
    ]

end_line-advance : (sl : StreamLine) → (advance sl).end_line ≡ sl.end_line
end_line-advance sl = ground arith

line-advance : (sl : StreamLine) → (advance sl).line ≡ sl.line + 1
line-advance sl = ground arith

pub AllJoinable-of_end :
    (sl : StreamLine) (xs : List Text) (e : ℕ)
    → AllButLast xs
    → sl.end_line ≡ pos e
    → suc e < sl.line + length xs
    → AllJoinable sl xs
AllJoinable-of_end sl [] e a he h = tt
AllJoinable-of_end sl (x ∷ []) e a he h = ((λ _ i. absurd (behind-range i)), tt)
  where
    behind-range : in_range sl ≡ true → ⊥
    behind-range i = ground arith
AllJoinable-of_end sl (x ∷ y ∷ ys) e a he h = (
  (λ _ _. a.0),
  AllJoinable-of_end (advance sl) (y ∷ ys) e a.1 (end_line-advance sl ∙ he)
      (omega (arith, line-advance sl)),
)
