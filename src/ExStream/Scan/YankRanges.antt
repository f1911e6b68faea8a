-- ===== src/ExStream/Scan/YankRanges.antt =====
-- What a yank copies, for lines that stand before, in and behind its range
-- (src/vi/ex-stream-line.cpp).
use wx_extension.Prelude.{
  ℕ, suc, ◌+◌, ◌<◌, ◌≤◌, ◌≡◌, ◌≢◌, List, [], ◌∷◌, ◌++◌, Text, length, concat, append_assoc,
  append-nil, true, false, arith, refl, ◌∙◌, pos, is_upper, ◌==◌, if◌then◌else◌,
}
use wx_extension.Macros.Registers.{Registers, get_register, set_register, is_register}
use wx_extension.Macros.Registers.Laws.{get_register-set_register}
use wx_extension.ExStream.Line.{StreamLine}
use wx_extension.ExStream.Scan.Split.{advance, advance_all}
use wx_extension.ExStream.Scan.Ranges.{moved, emit_all-before, emit_all-inside}
use wx_extension.ExStream.Scan.Yank.{
  append_register, yanked, preceding, yanked-past, preceding-past,
}

yanked-append :
    (sl : StreamLine) (r : Registers) (xs ys : List Text)
    → yanked sl r (xs ++ ys) ≡ yanked (advance_all sl xs) (yanked sl r xs) ys
yanked-append sl r [] ys = refl
yanked-append sl r (x ∷ xs) ys = yanked-append (advance sl) _ xs ys

preceding-append :
    (sl : StreamLine) (xs ys : List Text)
    → preceding sl (xs ++ ys) ≡ preceding sl xs ++ preceding (advance_all sl xs) ys
preceding-append sl [] ys = refl
preceding-append sl (x ∷ xs) ys = ground (arith, preceding-append (advance sl) xs ys)

abbrev pub appended : ℕ → Registers → List Text → Registers
appended name r [] = r
appended name r (x ∷ xs) = appended name (append_register name x r) xs

module _ (b e : ℕ) where
  yanked-before :
      (sl : StreamLine) (r : Registers) (xs : List Text)
      → sl.begin_line ≡ pos b
      → sl.end_line ≡ pos e
      → sl.line + length xs ≤ b
      → b ≤ e
      → (yanked sl r xs ≡ r) × (preceding sl xs ≡ xs)
  yanked-before sl r [] hb he h k = (refl, refl)
  yanked-before sl r (x ∷ xs) hb he h k = ground (arith, yanked-before (advance sl) r xs)

  yanked-inside :
      (sl : StreamLine) (r : Registers) (xs : List Text)
      → sl.begin_line ≡ pos b
      → sl.end_line ≡ pos e
      → b ≤ sl.line
      → sl.line + length xs ≤ suc e
      → (yanked sl r xs ≡ appended sl.register r xs) × (preceding sl xs ≡ [])
  yanked-inside sl r [] hb he h k = (refl, refl)
  yanked-inside sl r (x ∷ xs) hb he h k =
      ground (arith, yanked-inside (advance sl) (append_register sl.register x r) xs)

module _ (sl : StreamLine) (r : Registers) (before within behind : List Text) (e : ℕ)
    (start : sl.line ≡ 0) (hb : sl.begin_line ≡ pos (length before)) (he : sl.end_line ≡ pos e)
    (hw : suc e ≡ length before + length within) (some_line : 0 < length within) where
  pub yanked-range :
      (yanked sl r (before ++ (within ++ behind)) ≡ appended sl.register r within)
      × (preceding sl (before ++ (within ++ behind)) ≡ before)
  yanked-range =
      let b = length before in
      let p = emit_all-before b e sl before hb (omega arith) in
      let p' = yanked-before b e sl r before hb he (omega arith) (omega arith) in
      let sl₁ = moved sl 0 b in
      let q = emit_all-inside b e sl₁ within hb he (omega arith) (omega arith) in
      let q' = yanked-inside b e sl₁ r within hb he (omega arith) (omega arith) in
      let sl₂ = moved sl₁ (length within) (length within) in
      (
        rw
            (
              yanked-append sl r before (within ++ behind),
              p'.0,
              p.1,
              yanked-append sl₁ r within behind,
              q'.0,
              q.1,
            )
            (yanked-past sl₂ (appended sl.register r within) behind (ground arith)),
        rw
            (
              preceding-append sl before (within ++ behind),
              p'.1,
              p.1,
              preceding-append sl₁ within behind,
              q'.1,
              q.1,
            )
            (rw (preceding-past sl₂ behind (ground arith)) (append-nil before)),
      )

-- The name of a register that a write replaces.
pub record IsPlain (name : ℕ) : Type 0 where
  pub valid : is_register name ≡ true
  pub lower : is_upper name ≡ false
  pub not_clipboard : name ≢ b'*'
  pub not_quote : name ≢ 34
  pub not_black_hole : name ≢ b'_'

pub get_register-written :
    (name j : ℕ) (value : Text) (r : Registers)
    → IsPlain name
    → j ≢ b'*'
    → j ≢ 34
    → get_register j (set_register name value r).0 ≡ (if j == name then value else get_register j r)
get_register-written name j value r h s q =
    get_register-set_register name j value r h.valid h.not_clipboard s q
    ∙ ground (arith, h.lower, h.not_black_hole)

-- The register grows by all the lines; the others keep what they hold.
pub get_register-appended :
    (name j : ℕ) (r : Registers) (xs : List Text)
    → IsPlain name
    → j ≢ b'*'
    → j ≢ 34
    → get_register j (appended name r xs)
      ≡ (if j == name then get_register name r ++ concat xs else get_register j r)
get_register-appended name j r [] h s q = ground (arith, append-nil (get_register name r))
get_register-appended name j r (x ∷ xs) h s q =
    let value = get_register name r ++ x in
    ground (
      arith,
      get_register-appended name j (append_register name x r) xs h s q,
      get_register-written name j value r h s q,
      get_register-written name name value r h h.not_clipboard h.not_quote,
      append_assoc (get_register name r) x (concat xs),
    )
