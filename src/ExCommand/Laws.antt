-- ===== src/ExCommand/Laws.antt =====
-- That the command is what the text entry shows, behind the type (src/factory/ex-command.cpp).
mod Prefix
use wx_extension.Prelude.{
  ℕ, suc, ◌+◌, ◌-◌, ◌≤◌, ◌<◌, min, Bool, true, false, not, ◌&&◌, ◌||◌, Option, none, some, List, [],
  ◌∷◌, ◌++◌, Text, length, length-append, if◌then◌else◌, ◌==◌, ltb, leb, ◌≡◌, refl, ap, sym, ◌∙◌,
  arith, Bool-cases, Option-cases, append_assoc, inl, inr,
}
use wx_extension.Core.Text.{is_empty}
use wx_extension.Vi.Motions.{control_r}
use wx_extension.ExCommand.{
  ExCommand, Entry, EntryKey, cut, back, no_key, typed, str, append, pop_last, erase, erased,
  insert, inserted, handle, offset,
}
use wx_extension.ExCommand.Laws.Prefix.{
  erased-prefix, inserted-prefix, inserted_end, erased_end, take-prefix, length-erased,
  length-inserted,
}

-- What the user does in the entry: a key, or another point or selection.
pub data Action : Type 0 where
  press : EntryKey → Action
  move : ℕ → Action
  select : ℕ → ℕ → Action

abbrev pub without : Option (ℕ × ℕ) → Entry → Entry
without none e = e
without (some (a, b)) e = record e { value = erased a (b - a) e.value; point = a; selected = none }

-- The entry itself: it inserts and deletes at the point, and cuts the selection.
abbrev pub acted : Action → Entry → Entry
acted (press (typed k)) e = record e {
  value = inserted e.point (k ∷ []) e.value;
  point = suc e.point;
}
acted (press back) e =
    if e.point == 0
    then e
    else record e { value = erased (e.point - 1) 1 e.value; point = e.point - 1 }
acted (press cut) e = without e.selected e
acted (press no_key) e = e
acted (move i) e = record e { point = min i (length e.value); selected = none }
acted (select a b) e = record e { point = b; selected = some (a, b) }

abbrev pub is_unselected : Entry → Bool
is_unselected e = elim e.selected [ none ↦ true | some r ↦ false ]

-- A char is typed where nothing is selected, a backspace is typed there too and in an entry that is
-- not empty, and a selection is in the text.
abbrev pub is_allowed : Action → Entry → Bool
is_allowed (press (typed k)) e = is_unselected e
is_allowed (press back) e = is_unselected e && not (is_empty e.value)
is_allowed (press cut) e = true
is_allowed (press no_key) e = true
is_allowed (move i) e = true
is_allowed (select a b) e = ltb a b && leb b (length e.value)

unfoldable pub all_allowed : List Action → Entry → Bool
all_allowed [] e = true
all_allowed (a ∷ as_) e = is_allowed a e && all_allowed as_ (acted a e)

cut-is_unselected :
    (o : Option (ℕ × ℕ)) (e : Entry) → e.selected ≡ o → is_unselected (without o e) ≡ true
cut-is_unselected none e q = rw q refl
cut-is_unselected (some r) e q = refl

-- Behind a cut any char may be typed.
typed-is_allowed : (k : ℕ) (e : Entry) → is_allowed (press (typed k)) (acted (press cut) e) ≡ true
typed-is_allowed k e = cut-is_unselected e.selected e refl

-- The keys as the entry gives them to the command: behind a char that is typed over a selection
-- stands a cut, which textctrl_imp does first (src/ui/textctrl-imp.cpp: cut).
abbrev pub keyed : List Action → List Action
keyed [] = []
keyed (press (typed k) ∷ as_) = press cut ∷ press (typed k) ∷ keyed as_
keyed (a ∷ as_) = a ∷ keyed as_

unfoldable pub all_acted : List Action → Entry → Entry
all_acted [] e = e
all_acted (a ∷ as_) e = all_acted as_ (acted a e)

-- What starts a command: its type, of one char, or control-r and =.
abbrev pub is_type : Text → Bool
is_type [] = false
is_type (c ∷ []) = c == b':' || c == b'!' || c == b'/' || c == b'?'
is_type (c ∷ d ∷ []) = c == control_r && d == b'='
is_type (c ∷ d ∷ e ∷ t) = false

-- The point and the selection are in the text.
pub record IsEntry (e : Entry) : Type 0 where
  pub point_bound : e.point ≤ length e.value
  pub selected_bound : (a b : ℕ) → e.selected ≡ some (a, b) → (a < b) × (b ≤ length e.value)

-- The command is the type `p` and what the entry shows.
pub record IsShown (p : Text) (e : Entry) (c : ExCommand) : Type 0 where
  pub typed_text : c.has_type ≡ true
  pub text_lem : c.text ≡ p ++ e.value
  pub valid : IsEntry e

without-IsEntry :
    (o : Option (ℕ × ℕ)) (e : Entry)
    → IsEntry e
    → ((a b : ℕ) → o ≡ some (a, b) → (a < b) × (b ≤ length e.value))
    → IsEntry (without o e)
without-IsEntry none e v h = v
without-IsEntry (some (a, b)) e v h = record {
  point_bound =
      omega (arith, length-erased e.value a (b - a) (omega (arith, h a b refl)), h a b refl);
  selected_bound = λ c d r. cc;
}

acted-IsEntry : (a : Action) (e : Entry) → IsEntry e → is_allowed a e ≡ true → IsEntry (acted a e)
acted-IsEntry (press (typed k)) e v h = record {
  point_bound =
      omega (arith, length-inserted (k ∷ []) e.value e.point v.point_bound, v.point_bound);
  selected_bound = λ a b q. cc;
}
acted-IsEntry (press back) e v h = elim (Bool-cases (e.point == 0)) [
  | inl q ↦ rw q v
  | inr q ↦ rw q (record {
    point_bound = ground (
      arith,
      length-erased e.value (e.point - 1) 1 (ground (arith, v.point_bound)),
      v.point_bound,
    );
    selected_bound = λ a b r. cc;
  })
]
acted-IsEntry (press cut) e v h = without-IsEntry e.selected e v v.selected_bound
acted-IsEntry (press no_key) e v h = v
acted-IsEntry (move i) e v h = record { point_bound = omega arith; selected_bound = λ a b q. cc }
acted-IsEntry (select a b) e v h = record {
  point_bound = ground arith;
  selected_bound = λ c d q. ground arith;
}

if_value : (b : Bool) (e f : Entry) → (if b then e.value else f.value) ≡ (if b then e else f).value
if_value true e f = refl
if_value false e f = refl

without-none : (o : Option (ℕ × ℕ)) (e : Entry) → o ≡ none → (without o e).value ≡ e.value
without-none none e q = refl
without-none (some r) e q = cc

without-some :
    (o : Option (ℕ × ℕ)) (e : Entry) (a b : ℕ)
    → o ≡ some (a, b)
    → (without o e).value ≡ erased a (b - a) e.value
without-some none e a b q = cc
without-some (some (c, d)) e a b q = ground arith

if_false : {A : Type 0} {b : Bool} (x y : A) → b ≡ false → (if b then x else y) ≡ y
if_false x y h = rw h refl

module _ (visual margin : ℕ → Bool) where
  unfoldable pub all_handled : List Action → Entry → ExCommand → Option ExCommand
  all_handled [] e c = some c
  all_handled (press k ∷ as_) e c = elim (handle visual margin e k c) [
    | none ↦ none
    | some d ↦ all_handled as_ (acted (press k) e) d
  ]
  all_handled (move i ∷ as_) e c = all_handled as_ (acted (move i) e) c
  all_handled (select a b ∷ as_) e c = all_handled as_ (acted (select a b) e) c

  str-type :
      (p v : Text) (c : ExCommand)
      → is_type p ≡ true
      → c.has_type ≡ true
      → c.text ≡ p ++ v
      → str visual margin c ≡ p
  unfolding str
  str-type [] v c h t e = cc
  str-type (k ∷ []) v c h t e = rw (t, e) (ground arith)
  str-type (k ∷ l ∷ []) v c h t e = rw (t, e) (ground arith)
  str-type (k ∷ l ∷ m ∷ p) v c h t e = cc

  type_size : (p : Text) → is_type p ≡ true → 0 < length p
  type_size [] h = cc
  type_size (k ∷ p) h = omega arith

  module _ (p v : Text) (c : ExCommand) (h : is_type p ≡ true) (t : c.has_type ≡ true)
      (e : c.text ≡ p ++ v) where
    offset_lem : offset visual margin c ≡ length p
    offset_lem = rw (str-type p v c h t e) (rw t refl)

    length-text : length c.text ≡ length p + length v
    length-text = ap length e ∙ length-append p v

    insert-type :
        (i : ℕ) (u : Text)
        → i < length v
        → insert visual margin i u c ≡ some (record c { text = p ++ inserted i u v })
    unfolding insert
    insert-type i u l = rw (offset_lem, t) (ground (arith, length-text, inserted-prefix p u v i, e))

    erase-type :
        (i n : ℕ)
        → i < length v
        → i + n ≤ length v
        → erase visual margin i n c ≡ some (record c { text = p ++ erased i n v })
    unfolding erase
    erase-type i n l m =
        rw (offset_lem) (ground (arith, length-text, erased-prefix p v i n, e, type_size p h))

    pop_last-type : 0 < length v → (pop_last c).text ≡ p ++ erased (length v - 1) 1 v
    unfolding pop_last
    pop_last-type l =
        rw (length-text, e)
          (take-prefix p v (length v - 1) (length p + length v - 1) (omega arith)
            ∙ ap (p ++◌) (sym (erased_end v (length v - 1) 1 (omega arith))))

    handle-typed :
        (w : Entry) (k : ℕ)
        → w.value ≡ v
        → w.point ≤ length v
        → handle visual margin w (typed k) c
          ≡ some (record c { text = p ++ inserted w.point (k ∷ []) v })
    unfolding handle append
    handle-typed w k f b = elim (Bool-cases (w.point == length w.value)) [
      | inl q ↦ rw q (
          ap (λ (u : Text). some (record c { text = u }))
            (rw e (append_assoc p v (k ∷ []))
              ∙ ap (p ++◌) (sym (inserted_end (k ∷ []) v w.point (ground (arith, f))))))
      | inr q ↦ rw q (insert-type w.point (k ∷ []) (ground (arith, ap length f)))
    ]

    handle-back :
        (w : Entry)
        → w.value ≡ v
        → w.selected ≡ none
        → 0 < length v
        → w.point ≤ length v
        → handle visual margin w back c
          ≡ some (record c { text = p ++ (if w.point == 0 then v else erased (w.point - 1) 1 v) })
    unfolding handle pop_last
    handle-back w f g l b =
        let full : is_empty c.text ≡ false = ground (arith, length-text) in
        if_false (some c) _ full ∙ (elim (Bool-cases (w.point == length w.value)) [
          | inl q ↦ rw q (
              ap (λ (u : Text). some (record c { text = u }))
                (pop_last-type l
                  ∙ (let r : w.point ≡ length v = ground (arith, ap length f) in
                      rw r (ground arith))))
          | inr q ↦
              rw (q, g)
                (elim (Bool-cases (w.point == 0)) [
                  | inl r ↦ rw r (ap (λ (u : Text). some (record c { text = u })) e)
                  | inr r ↦ rw r (erase-type (w.point - 1) 1 (ground arith) (ground arith))
                ])
        ])

    handle-cut :
        (w : Entry) (a b : ℕ)
        → w.selected ≡ some (a, b)
        → a < b
        → b ≤ length v
        → handle visual margin w cut c ≡ some (record c { text = p ++ erased a (b - a) v })
    unfolding handle
    handle-cut w a b g k l = rw g (erase-type a (b - a) (omega arith) (omega arith))

  handle_unselected :
      (e : Entry) (c : ExCommand) → e.selected ≡ none → handle visual margin e cut c ≡ some c
  unfolding handle
  handle_unselected e c q = rw q refl

  handle-IsShown :
      (p : Text) (k : EntryKey) (e : Entry) (c : ExCommand)
      → is_type p ≡ true
      → IsShown p e c
      → is_allowed (press k) e ≡ true
      → handle visual margin e k c ≡ some (record c { text = p ++ (acted (press k) e).value })
  unfolding handle
  handle-IsShown p (typed k) e c h v a =
      handle-typed p e.value c h v.typed_text v.text_lem e k refl v.valid.point_bound
  handle-IsShown p back e c h v a =
      handle-back p e.value c h v.typed_text v.text_lem e refl (ground arith) (ground arith)
        v.valid.point_bound
      ∙ ap (λ (u : Text). some (record c { text = p ++ u })) (if_value (e.point == 0) e _)
  handle-IsShown p cut e c h v a = elim (Option-cases e.selected) [
    | inl q ↦
        handle_unselected e c q
        ∙ ap (λ (u : Text). some (record c { text = u }))
            (v.text_lem ∙ ap (p ++◌) (sym (without-none e.selected e q)))
    | inr ((a, b), q) ↦
        handle-cut p e.value c h v.typed_text v.text_lem e a b q (v.valid.selected_bound a b q).0
          (v.valid.selected_bound a b q).1
        ∙ ap (λ (u : Text). some (record c { text = p ++ u }))
            (sym (without-some e.selected e a b q))
  ]
  handle-IsShown p no_key e c h v a = ap (λ (u : Text). some (record c { text = u })) v.text_lem

  handled-IsShown :
      (p : Text) (as_ : List Action) (e : Entry) (c : ExCommand)
      → is_type p ≡ true
      → all_allowed as_ e ≡ true
      → IsShown p e c
      → (d : ExCommand) × (all_handled as_ e c ≡ some d) × IsShown p (all_acted as_ e) d
  unfolding all_allowed all_handled all_acted
  handled-IsShown p [] e c h a v = (c, refl, v)
  handled-IsShown p (press k ∷ as_) e c h a v =
      let d = record c { text = p ++ (acted (press k) e).value } in
      rw (all_handled, handle-IsShown p k e c h v (ground arith))
        (handled-IsShown p as_ (acted (press k) e) d h (ground arith) (record {
          typed_text = v.typed_text;
          text_lem = refl;
          valid = acted-IsEntry (press k) e v.valid (ground arith);
        }))
  handled-IsShown p (move i ∷ as_) e c h a v =
      handled-IsShown p as_ (acted (move i) e) c h a (record {
        typed_text = v.typed_text;
        text_lem = v.text_lem;
        valid = acted-IsEntry (move i) e v.valid refl;
      })
  handled-IsShown p (select m n ∷ as_) e c h a v =
      handled-IsShown p as_ (acted (select m n) e) c h (ground arith) (record {
        typed_text = v.typed_text;
        text_lem = v.text_lem;
        valid = acted-IsEntry (select m n) e v.valid (ground arith);
      })

  -- For a command that is its type (a char : ! / or ?, or control-r and =) and what the entry
  -- shows: chars that are typed, over a selection or not, where a selection is cut first, cuts,
  -- moves, selections within the text, and backspaces with nothing selected in an entry that is not
  -- empty: after any of these nothing has thrown, and the command is its type and what the entry
  -- shows. Nothing is said of a backspace over a selection, or in an empty entry.
  pub all_handled-IsShown :
      (p : Text) (as_ : List Action) (e : Entry) (c : ExCommand)
      → is_type p ≡ true
      → all_allowed (keyed as_) e ≡ true
      → IsShown p e c
      → (d : ExCommand) × (all_handled (keyed as_) e c ≡ some d)
        × IsShown p (all_acted (keyed as_) e) d
  all_handled-IsShown p as_ e c h a v = handled-IsShown p (keyed as_) e c h a v
