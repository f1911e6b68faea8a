-- ===== src/ExStream/Scan/Split.antt =====
-- The lines of a stream, and what the commands that copy it do with each: the specification of the
-- loop, with no buffer in it.
use wx_extension.Prelude.{
  ℕ, suc, ◌-◌, ◌≡◌, true, false, ◌||◌, List, [], ◌∷◌, ◌++◌, Text, length, take, concat, ◌==◌,
  newline, if◌then◌else◌, append_assoc, refl, Bool-cases, inl, inr,
}
use wx_extension.ExStream.Line.{StreamLine, erase, insert, join, write, bump, in_range, next_line}

-- The lines of `text`, where `current` is already in the buffer. Every line ends behind its
-- newline, or where it has `size` chars; the last one is what remains, and may be empty.
unfoldable pub split : ℕ → Text → Text → List Text
split size current [] = current ∷ []
split size current (c ∷ rest) = elim (c == newline || suc (length current) == size) [
  | true ↦ (current ++ c ∷ []) ∷ split size [] rest
  | false ↦ split size (current ++ c ∷ []) rest
]

pub concat-split :
    (size : ℕ) (current text : Text) → concat (split size current text) ≡ current ++ text
unfolding split
concat-split size current [] = refl
concat-split size current (c ∷ rest) =
    elim (Bool-cases (c == newline || suc (length current) == size)) [
      | inl e ↦ rw (e, split) (simp (concat-split size [] rest, append_assoc))
      | inr e ↦ rw (e, split) (simp (concat-split size (current ++ c ∷ []) rest, append_assoc))
    ]

-- What is written for one line.
abbrev pub emit : StreamLine → Text → Text
emit sl x =
    if in_range sl
    then (elim sl.action [
      | erase ↦ []
      | insert ↦ sl.text ++ x
      | join ↦ take (length x - 1) x
      | _ ↦ x
    ])
    else (elim sl.action [ write ↦ [] | _ ↦ x ])

-- The members after the line.
abbrev pub advance : StreamLine → StreamLine
advance sl = next_line (if in_range sl then bump sl else sl)

abbrev pub emit_all : StreamLine → List Text → Text
emit_all sl [] = []
emit_all sl (x ∷ xs) = emit sl x ++ emit_all (advance sl) xs

abbrev pub advance_all : StreamLine → List Text → StreamLine
advance_all sl [] = sl
advance_all sl (x ∷ xs) = advance_all (advance sl) xs
