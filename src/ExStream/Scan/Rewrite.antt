-- ===== src/ExStream/Scan/Rewrite.antt =====
-- The loop over the stream (src/vi/ex-stream.cpp) for a substitution by a regular expression,
-- against a plain list of lines.
use wx_extension.Prelude.{
  ℕ, suc, ◌+◌, ◌<◌, ◌≤◌, ◌≡◌, Bool, true, ◌||◌, Option, some, List, [], ◌∷◌, ◌++◌, Text, length,
  take, set, ◌==◌, newline, if◌then◌else◌, append_assoc, append-nil, arith, refl, sym, ◌∙◌,
  Bool-cases, inl, inr, length-set, pos, concat, map, ◌⊎◌,
}
use wx_extension.ExStream.Line.{
  StreamLine, Substitute, Output, Regex, go_on, substitute, in_range, handle, search_replace,
}
use wx_extension.ExStream.Scan.{scan}
use wx_extension.ExStream.Scan.Step.{
  take-length, room-left, stored, scan-within, scan-handled, split-stored-handled,
  split-stored-within,
}
use wx_extension.ExStream.Scan.Split.{split}

-- A command that substitutes by a regular expression.
pub record Rewrites (sl : StreamLine) : Type 0 where
  pub action_lem : sl.action ≡ substitute
  pub regex_lem : sl.subst.is_regex ≡ true

module _ (regex : Regex) where
  -- The line behind the substitution, and whether it counts.
  abbrev pub rewritten : Substitute → Text → Text × Bool
  rewritten d x = search_replace (regex d.pattern x d.replacement) x

  abbrev pub one_hit : Substitute → Text → ℕ
  one_hit d x = if (rewritten d x).1 then 1 else 0

  abbrev pub emitted : StreamLine → Text → Text
  emitted sl x = if in_range sl then (rewritten sl.subst x).0 else x

  abbrev pub counted : StreamLine → Text → StreamLine
  counted sl x = record sl {
    actions = sl.actions + (if in_range sl then one_hit sl.subst x else 0);
    line = sl.line + 1;
  }

  abbrev pub all_emitted : StreamLine → List Text → Text
  all_emitted sl [] = []
  all_emitted sl (x ∷ xs) = emitted sl x ++ all_emitted (counted sl x) xs

  abbrev pub all_counted : StreamLine → List Text → StreamLine
  all_counted sl [] = sl
  all_counted sl (x ∷ xs) = all_counted (counted sl x) xs

  counted-Rewrites : (sl : StreamLine) (x : Text) → Rewrites sl → Rewrites (counted sl x)
  counted-Rewrites sl x w = record { action_lem = w.action_lem; regex_lem = w.regex_lem }

  handle-rewritten :
      (n : ℕ) (o : Output) (sl : StreamLine)
      → Rewrites sl
      → n ≤ length o.buffer
      → handle regex sl n o
        ≡ some (record {
          result = go_on;
          sl = counted sl (take n o.buffer);
          output = record o { file = o.file ++ emitted sl (take n o.buffer) };
          n = 0;
        })
  unfolding handle
  handle-rewritten n o sl w h = ground (arith, w.action_lem, w.regex_lem, take-length n o.buffer)

  -- The loop ended well, and has written what the lines give.
  abbrev pub EmitsAll :
      Option (StreamLine × Output × Text) → StreamLine → Output → List Text → Type 0
  EmitsAll r sl o lines =
      (o' : Output) × (r ≡ some (all_counted sl lines, o', []))
      × (o'.file ≡ o.file ++ all_emitted sl lines)
      × (o'.registers ≡ o.registers)
      × (length o'.buffer ≡ length o.buffer)

  module _ (size : ℕ) where
    EmitsAll-end :
        (i : ℕ) (sl : StreamLine) (o : Output)
        → Rewrites sl
        → i ≤ length o.buffer
        → EmitsAll (scan regex size [] i sl o) sl o (take i o.buffer ∷ [])
    unfolding scan
    EmitsAll-end i sl o w h = (
      record o { file = o.file ++ emitted sl (take i o.buffer) },
      rw (handle-rewritten i o sl w h) refl,
      rw append-nil refl,
      refl,
      refl,
    )

    EmitsAll-cons :
        (text : Text) (sl : StreamLine) (o o₁ : Output) (x : Text) (xs : List Text)
        → o₁.file ≡ o.file ++ emitted sl x
        → o₁.registers ≡ o.registers
        → length o₁.buffer ≡ length o.buffer
        → EmitsAll (scan regex size text 0 (counted sl x) o₁) (counted sl x) o₁ xs
        → EmitsAll (scan regex size text 0 (counted sl x) o₁) sl o (x ∷ xs)
    EmitsAll-cons text sl o o₁ x xs f r l (o', e, f', r', l') =
        (o', e, rw (f', f, append_assoc) refl, r' ∙ r, l' ∙ l)

    pub scan-rewritten :
        (text : Text) (i : ℕ) (sl : StreamLine) (o : Output)
        → Rewrites sl
        → size ≤ length o.buffer
        → i < size
        → EmitsAll (scan regex size text i sl o) sl o (split size (take i o.buffer) text)
    scan-rewritten [] i sl o w hs hi = unfold split in EmitsAll-end i sl o w (omega arith)
    scan-rewritten (c ∷ rest) i sl o w hs hi = elim (Bool-cases (c == newline || suc i == size)) [
      | inl e ↦
          let x = take (suc i) (set o.buffer i c) in
          let o₁ : Output = record o { buffer = set o.buffer i c; file = o.file ++ emitted sl x } in
          let l = length-set o.buffer i c in
          rw
            (
              split-stored-handled size c rest i o.buffer (omega arith) e,
              scan-handled regex size c rest i sl o (omega arith) e
                  (handle-rewritten (suc i) (stored o i c) sl w (omega arith)),
            )
            (EmitsAll-cons rest sl o o₁ x (split size [] rest) refl refl l (
              scan-rewritten rest 0 (counted sl x) o₁ (counted-Rewrites sl x w) (omega arith)
                (omega arith)))
      | inr e ↦
          let l = length-set o.buffer i c in
          rw
            (
              split-stored-within size c rest i o.buffer (omega arith) e,
              scan-within regex size c rest i sl o (omega arith) e,
            )
            (let (o', q, f, r, l') =
                scan-rewritten rest (suc i) sl (stored o i c) w (omega arith)
                  (room-left c i size e hi) in
              (o', q, f, r, l' ∙ l))
    ]

  -- How many of the lines count.
  abbrev pub hits : Substitute → List Text → ℕ
  hits d [] = 0
  hits d (x ∷ xs) = one_hit d x + hits d xs

  -- The members behind lines of which so many counted.
  abbrev pub passed : StreamLine → ℕ → ℕ → StreamLine
  passed sl h k = record sl { actions = sl.actions + h; line = sl.line + k }

  pub all_emitted-append :
      (sl : StreamLine) (xs ys : List Text)
      → (all_emitted sl (xs ++ ys) ≡ all_emitted sl xs ++ all_emitted (all_counted sl xs) ys)
        × (all_counted sl (xs ++ ys) ≡ all_counted (all_counted sl xs) ys)
  all_emitted-append sl [] ys = (refl, refl)
  all_emitted-append sl (x ∷ xs) ys =
      let r = all_emitted-append (counted sl x) xs ys in
      (rw r.0 (sym (append_assoc (emitted sl x) _ _)), r.1)

  pub outside-emitted :
      (sl : StreamLine) (xs : List Text) (b e : ℕ)
      → sl.begin_line ≡ pos b
      → sl.end_line ≡ pos e
      → (sl.line + length xs ≤ b) ⊎ (e < sl.line)
      → (all_emitted sl xs ≡ concat xs) × (all_counted sl xs ≡ passed sl 0 (length xs))
  outside-emitted sl [] b e hb he h = ground arith
  outside-emitted sl (x ∷ xs) b e hb he h =
      ground (arith, outside-emitted (counted sl x) xs b e hb he)

  pub inside-emitted :
      (sl : StreamLine) (xs : List Text) (b e : ℕ)
      → sl.begin_line ≡ pos b
      → sl.end_line ≡ pos e
      → b ≤ sl.line
      → sl.line + length xs ≤ suc e
      → (all_emitted sl xs ≡ concat (map (λ x. (rewritten sl.subst x).0) xs))
        × (all_counted sl xs ≡ passed sl (hits sl.subst xs) (length xs))
  inside-emitted sl [] b e hb he h k = ground arith
  inside-emitted sl (x ∷ xs) b e hb he h k =
      ground (arith, inside-emitted (counted sl x) xs b e hb he)
