-- ===== src/Address/Line/Laws.antt =====
-- Where the line of an address lies (src/vi/address.cpp).
use wx_extension.Prelude.{
  ℕ, suc, ◌+◌, ◌≤◌, Bool, true, false, some, Text, ℤ, pos, ◌≤ℤ◌, min, ◌≡◌, arith, Option-cases, inl,
  inr,
}
use wx_extension.Address.Line.{View, Address, get_line, set_line, find_stc, find_in_stream}

-- Matches lie on lines of the editor, that has `c` lines.
pub record Lines {E : Type 0} (v : View E) (e : E) (c : ℕ) : Type 0 where
  pub positive : 1 ≤ c
  pub counted : v.line_count e ≡ pos c
  pub searched :
      (t : Text) (a b p : ℕ) → v.search t a b e ≡ some p → v.line_from_position p e + 1 ≤ c
  pub found : (t : Text) (f : Bool) (l : ℕ) → v.find_stream t f e ≡ some l → l + 1 ≤ c
  pub current : v.line_from_position (v.current_pos e) e + 1 ≤ c

abbrev pub IsWithin : ℕ → ℤ → Type 0
IsWithin c l = (pos 0 ≤ℤ l) × (l ≤ℤ pos c)

module _ {E : Type 0} (v : View E) (e : E) (c : ℕ) (lines : Lines v e c) where
  within : (l : ℕ) → l ≤ c → IsWithin c (pos l)
  within l h = (omega arith, omega arith)

  find_stc-IsWithin : (t : Text) (f : Bool) → IsWithin c (find_stc v t f e)
  unfolding find_stc
  find_stc-IsWithin t true =
      let cur = v.current_pos e in
      let all = v.text_length e in
      elim (Option-cases (v.search t cur all e)) [
        | inr (p, h) ↦ ground (arith, lines.searched t cur all p h)
        | inl n ↦ elim (Option-cases (v.search t 0 cur e)) [
          | inl m ↦ ground arith
          | inr (p, h) ↦ ground (arith, lines.searched t 0 cur p h)
        ]
      ]
  find_stc-IsWithin t false =
      let cur = v.current_pos e in
      let all = v.text_length e in
      elim (Option-cases (v.search t cur 0 e)) [
        | inr (p, h) ↦ ground (arith, lines.searched t cur 0 p h)
        | inl n ↦ elim (Option-cases (v.search t all cur e)) [
          | inl m ↦ ground arith
          | inr (p, h) ↦ ground (arith, lines.searched t all cur p h)
        ]
      ]

  find_in_stream-IsWithin : (t : Text) (f : Bool) → IsWithin c (find_in_stream v t f e)
  unfolding find_in_stream
  find_in_stream-IsWithin t f = elim (Option-cases (v.find_stream t f e)) [
    | inl n ↦ ground arith
    | inr (l, h) ↦ ground (arith, lines.found t f l h)
  ]

  pub get_line-IsWithin : (a : Address) → a.line ≤ℤ pos c → IsWithin c (get_line v a e)
  unfolding get_line
  get_line-IsWithin a h = elim (Option-cases (v.match a.address)) [
    | inl n ↦ ground (arith, lines.counted)
    | inr ((t, f), m) ↦ ground (arith, find_in_stream-IsWithin t f, find_stc-IsWithin t f)
  ]

  pub set_line-line :
      (n : ℤ) (a : Address)
      → (pos 1 ≤ℤ (set_line v n a e).line) × ((set_line v n a e).line ≤ℤ pos c)
  unfolding set_line
  set_line-line n a = ground (arith, lines.counted, lines.positive)

  -- A line that is set is the one that is got.
  pub get_line-set_line :
      (n : ℤ) (a : Address) → get_line v (set_line v n a e) e ≡ (set_line v n a e).line
  unfolding get_line
  get_line-set_line n a = ground (arith, set_line-line n a)

  pub set_line-within :
      (l : ℕ) (a : Address) → (set_line v (pos (suc l)) a e).line ≡ pos (min (suc l) c)
  unfolding set_line
  set_line-within l a = ground (arith, lines.counted)
