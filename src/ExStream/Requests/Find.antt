-- ===== src/ExStream/Requests/Find.antt =====
-- A search forward over the lines of a stream (src/vi/ex-stream.cpp: find).
use wx_extension.Prelude.{
  ℕ, zero, suc, ◌-◌, ◌<◌, ◌≡◌, Bool, true, false, Option, none, some, Text, length, arith, refl, ap,
  ◌∙◌, Bool-cases, inl, inr,
}
use wx_extension.ExStream.Stream.{clear, tellg}
use wx_extension.ExStream.State.{State, Source, content, input, not_found, default_line_size}
use wx_extension.ExStream.Requests.{on_line, find_line, find, end_find}
use wx_extension.ExStream.Navigate.{on_input}
use wx_extension.ExStream.Navigate.Laws.{
  HasRoom, Reads, get_next_line-Reads, HasRoom-Reads, Reads-trans,
}
use wx_extension.ExStream.Requests.Reading.{
  get_next_line-IsTerminated, get_next_line-at, on_line-total, at_of,
}

content-Reads : {s t : State} → Reads s t → content t ≡ content s
content-Reads r = ground arith

module _ (regex : Option (Text → Bool)) (text : Text) where
  find_line-next :
      (rounds : ℕ) (s : State) {w : Source}
      → s.source ≡ some w
      → HasRoom s
      → 1 < s.line_size
      → (input s).fail ≡ false
      → length (content s) - at_of s < rounds
      → (b : Bool) × (s' : State) × (find_line rounds regex text true s ≡ some (b, s'))
        × Reads s s'
        × (b ≡ true → on_line regex text s'.current_line ≡ some true)
  unfolding find_line
  find_line-next zero s o h g nf f = absurd (omega arith)
  find_line-next (suc rounds) s {w = w} o h g nf f =
      let (r, e, reads, _) = get_next_line-Reads s h in
      let (b, q) = on_line-total regex text r.1.current_line (get_next_line-IsTerminated s r e) in
      elim (Bool-cases r.0) [
        | inr n ↦ (false, r.1, ground arith, reads, λ x. cc)
        | inl n ↦ elim (Bool-cases b) [
          | inl y ↦ (true, r.1, ground arith, reads, λ _. q ∙ ap some y)
          | inr y ↦
              let (x, z, nf') = get_next_line-at s r e {w = w} o nf g n in
              let (b', s', p, reads', found_lem) =
                find_line-next rounds r.1 {w = w} (reads.source ∙ o) (HasRoom-Reads reads h)
                  (omega (arith, reads.line_size)) nf'
                  (omega (arith, ap length (content-Reads reads))) in
              (b', s', ground arith, Reads-trans reads reads', found_lem)
        ]
      ]

cleared :
    (s : State) {w : Source}
    → s.source ≡ some w
    → Reads s (on_input clear s) × ((input (on_input clear s)).fail ≡ false)
unfolding clear
cleared s o = ground arith

-- What is left behind the loop, in a state that only reads have changed.
abbrev pub Ended : Text → State → Bool → State → Type 0
Ended text s b s' =
    (b ≡ true → (on_line none text s'.current_line ≡ some true) × (s'.find_string ≡ text))
    × (b ≡ false → (s'.line_no ≡ s.line_no) × (s'.message ≡ some (not_found text)))
    × (content s' ≡ content s)
    × (s'.temp ≡ s.temp)
    × (s'.registers ≡ s.registers)
    × (s'.markers ≡ s.markers)
    × (s'.line_size ≡ default_line_size)

end_find-Ended :
    (text : Text) (s s' : State) (b : Bool)
    → Reads s s'
    → (b ≡ true → on_line none text s'.current_line ≡ some true)
    → Ended text s
        (end_find text s.line_no (tellg (input s)) (b, s')).0
        (end_find text s.line_no (tellg (input s)) (b, s')).1
end_find-Ended text s s' true r k = ground (arith, k refl)
end_find-Ended text s s' false r k = ground arith

find-some :
    (rounds : ℕ) (text : Text) (s s' : State) (b : Bool) {w : Source}
    → s.source ≡ some w
    → find_line rounds none text true (on_input clear s) ≡ some (b, s')
    → find rounds none text true s ≡ some (end_find text s.line_no (tellg (input s)) (b, s'))
unfolding find
find-some rounds text s s' b o e = ground arith

-- For a search forward on a stream that is open, with lines of more than one char that fit the line
-- buffer, and at least one round more than the stream has chars: the search ends; where it
-- succeeds, the line buffer holds the text and the text is remembered; where it fails, the line
-- number is what it was and the status shows that; the content of the stream, its files, the
-- registers and the markers stay, and the line size is the default.
pub find-next :
    (rounds : ℕ) (text : Text) (s : State) (w : Source)
    → s.source ≡ some w
    → HasRoom s
    → 1 < s.line_size
    → length (content s) < rounds
    → (b : Bool) × (s' : State) × (find rounds none text true s ≡ some (b, s')) × Ended text s b s'
find-next rounds text s w o h g f =
    let (r, nf) = cleared s {w = w} o in
    let (b, s', e, reads, k) =
      find_line-next none text rounds (on_input clear s) {w = w} (r.source ∙ o) (HasRoom-Reads r h)
        (omega (arith, r.line_size)) nf (omega (arith, ap length (content-Reads r))) in
    let t = end_find text s.line_no (tellg (input s)) (b, s') in
    (
      t.0,
      t.1,
      find-some rounds text s s' b {w = w} o e,
      end_find-Ended text s s' b (Reads-trans r reads) k,
    )
