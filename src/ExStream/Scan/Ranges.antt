-- ===== src/ExStream/Scan/Ranges.antt =====
-- What a copying command writes, for lines that stand before, in and behind its range
-- (src/vi/ex-stream-line.cpp).
use wx_extension.Prelude.{
  ℕ, suc, ◌+◌, ◌-◌, ◌<◌, ◌≤◌, ◌≡◌, List, [], ◌∷◌, ◌++◌, Text, length, take, concat, map,
  append_assoc, arith, refl, sym, pos, length-append,
}
use wx_extension.ExStream.Line.{Action, StreamLine, erase, insert, join, write}
use wx_extension.ExStream.Scan.Split.{emit, advance, emit_all, advance_all}

-- What is written for the lines outside the range.
abbrev pub outside : Action → List Text → Text
outside write xs = []
outside _ xs = concat xs

-- What is written for a line in the range.
abbrev pub inside : Action → Text → Text → Text
inside erase text x = []
inside insert text x = text ++ x
inside join text x = take (length x - 1) x
inside _ text x = x

pub emit_all-append :
    (sl : StreamLine) (xs ys : List Text)
    → emit_all sl (xs ++ ys) ≡ emit_all sl xs ++ emit_all (advance_all sl xs) ys
emit_all-append sl [] ys = refl
emit_all-append sl (x ∷ xs) ys =
    rw (emit_all-append (advance sl) xs ys) (sym (append_assoc (emit sl x) _ _))

pub advance_all-append :
    (sl : StreamLine) (xs ys : List Text)
    → advance_all sl (xs ++ ys) ≡ advance_all (advance_all sl xs) ys
advance_all-append sl [] ys = refl
advance_all-append sl (x ∷ xs) ys = advance_all-append (advance sl) xs ys

-- The members behind `xs`, of which `hits` were in the range.
abbrev pub moved : StreamLine → ℕ → ℕ → StreamLine
moved sl hits k = record sl { actions = sl.actions + hits; line = sl.line + k }

module _ (b e : ℕ) where
  pub emit_all-before :
      (sl : StreamLine) (xs : List Text)
      → sl.begin_line ≡ pos b
      → sl.line + length xs ≤ b
      → (emit_all sl xs ≡ outside sl.action xs) × (advance_all sl xs ≡ moved sl 0 (length xs))
  emit_all-before sl [] hb h = ground arith
  emit_all-before sl (x ∷ xs) hb h = ground (arith, emit_all-before (advance sl) xs)

  pub emit_all-inside :
      (sl : StreamLine) (xs : List Text)
      → sl.begin_line ≡ pos b
      → sl.end_line ≡ pos e
      → b ≤ sl.line
      → sl.line + length xs ≤ suc e
      → (emit_all sl xs ≡ concat (map (inside sl.action sl.text) xs))
        × (advance_all sl xs ≡ moved sl (length xs) (length xs))
  emit_all-inside sl [] hb he h k = ground arith
  emit_all-inside sl (x ∷ xs) hb he h k = ground (arith, emit_all-inside (advance sl) xs)

  pub emit_all-behind :
      (sl : StreamLine) (xs : List Text)
      → sl.end_line ≡ pos e
      → e < sl.line
      → (emit_all sl xs ≡ outside sl.action xs) × (advance_all sl xs ≡ moved sl 0 (length xs))
  emit_all-behind sl [] he h = ground arith
  emit_all-behind sl (x ∷ xs) he h = ground (arith, emit_all-behind (advance sl) xs)

-- The lines are those before the range, those in it, and those behind it.
module _ (sl : StreamLine) (before within behind : List Text) (e : ℕ) (start : sl.line ≡ 0)
    (hb : sl.begin_line ≡ pos (length before)) (he : sl.end_line ≡ pos e)
    (hw : suc e ≡ length before + length within) where
  pub emit_all-range :
      emit_all sl (before ++ (within ++ behind))
      ≡ outside sl.action before
        ++ (concat (map (inside sl.action sl.text) within) ++ outside sl.action behind)
  emit_all-range =
      let p = emit_all-before (length before) e sl before hb (omega arith) in
      let sl₁ = moved sl 0 (length before) in
      let q = emit_all-inside (length before) e sl₁ within hb he (omega arith) (omega arith) in
      let sl₂ = moved sl₁ (length within) (length within) in
      let r = emit_all-behind (length before) e sl₂ behind he (omega arith) in
      rw (
        emit_all-append sl before (within ++ behind),
        p.0,
        p.1,
        emit_all-append sl₁ within behind,
        q.0,
        q.1,
        r.0,
      )

  pub advance_all-range :
      advance_all sl (before ++ (within ++ behind))
      ≡ moved sl (length within) (length (before ++ (within ++ behind)))
  advance_all-range =
      let p = emit_all-before (length before) e sl before hb (omega arith) in
      let sl₁ = moved sl 0 (length before) in
      let q = emit_all-inside (length before) e sl₁ within hb he (omega arith) (omega arith) in
      let sl₂ = moved sl₁ (length within) (length within) in
      let r = emit_all-behind (length before) e sl₂ behind he (omega arith) in
      rw
        (
          advance_all-append sl before (within ++ behind),
          p.1,
          advance_all-append sl₁ within behind,
          q.1,
          r.1,
        )
        (ground (arith, length-append before (within ++ behind), length-append within behind))
