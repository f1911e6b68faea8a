-- ===== src/Sort/Laws.antt =====
-- What sorting gives (src/factory/sort.cpp).
pub mod Order
use wx_extension.Prelude.{
  ◌+◌, Bool, true, false, none, some, List, [], ◌∷◌, ◌++◌, map, Text, if◌then◌else◌, concat, ◌≡◌,
  refl, ap, sym, ◌∙◌, arith, append-nil,
}
use mathlib.Core.List.{Perm, perm_middle, reverse, reverse-cons, reverse_perm}
use mathlib.Core.List.Perm
use mathlib.Core.Path.{subst}
use wx_extension.Sort.{
  Sort, text_lt, key_of, Pairs, insert_multi, insert_key, fill, get_column, all_space, in_order,
  sort_string,
}
use Order.{text_le, text_lt→le, chain, ascending, ascending-reverse}

-- The order of the keys.
abbrev pub key_order : Bool → Text → Text → Bool
key_order descending a b = if descending then text_le b a else text_le a b

chain-insert_key :
    (j k : Text) (m : List Text)
    → text_le j k ≡ true
    → chain text_le j m ≡ true
    → chain text_le j (insert_key k m) ≡ true
unfolding insert_key text_le
chain-insert_key j k [] r h = ground arith
chain-insert_key j k (i ∷ m) r h = ground (arith, text_lt→le k i, chain-insert_key i k m)

pub ascending-insert_key :
    (k : Text) (m : List Text)
    → ascending text_le m ≡ true
    → ascending text_le (insert_key k m) ≡ true
unfolding insert_key text_le
ascending-insert_key k [] h = refl
ascending-insert_key k (i ∷ m) h = ground (arith, text_lt→le k i, chain-insert_key i k m)

pub insert_key-perm : (k : Text) (m : List Text) → Perm (insert_key k m) (k ∷ m)
unfolding insert_key
insert_key-perm k [] = Perm.rfl
insert_key-perm k (i ∷ m) =
    elim (text_lt k i) as (λ b. Perm (if b then k ∷ i ∷ m else i ∷ insert_key k m) (k ∷ i ∷ m)) [
      | true ↦ Perm.rfl
      | false ↦ Perm.trans (Perm.cons i (insert_key-perm k m)) (Perm.swap k i m)
    ]

-- the keys and the lines of the pairs
abbrev keys : Pairs → List Text
keys m = map (λ e. e.0) m

abbrev values : Pairs → List Text
values m = map (λ e. e.1) m

keys-insert_multi : (k v : Text) (m : Pairs) → keys (insert_multi k v m) ≡ insert_key k (keys m)
unfolding insert_multi insert_key
keys-insert_multi k v [] = refl
keys-insert_multi k v ((j, w) ∷ m) = ground (arith, keys-insert_multi k v m)

values-insert_multi-perm :
    (k v : Text) (m : Pairs) → Perm (values (insert_multi k v m)) (v ∷ values m)
unfolding insert_multi
values-insert_multi-perm k v [] = Perm.rfl
values-insert_multi-perm k v ((j, w) ∷ m) =
    elim (text_lt k j)
      as (λ b.
        Perm (values (if b then (k, v) ∷ (j, w) ∷ m else (j, w) ∷ insert_multi k v m))
          (v ∷ w ∷ values m)) [
            | true ↦ Perm.rfl
            | false ↦
                Perm.trans (Perm.cons w (values-insert_multi-perm k v m)) (Perm.swap v w (values m))
          ]

module _ (s : Sort) (multi : s.unique ≡ false) where
  -- the keys are those of the lines
  abbrev IsKeyed : Pairs → Type 0
  IsKeyed m = keys m ≡ map (key_of s) (values m)

  insert_multi-IsKeyed :
      (v : Text) (m : Pairs) → IsKeyed m → IsKeyed (insert_multi (key_of s v) v m)
  unfolding insert_multi
  insert_multi-IsKeyed v [] h = refl
  insert_multi-IsKeyed v ((j, w) ∷ m) h = ground (arith, insert_multi-IsKeyed v m, h)

  fill-cons :
      (l : Text) (ls : List Text) (m : Pairs)
      → fill s (l ∷ ls) m ≡ fill s ls (insert_multi (key_of s l) l m)
  unfolding fill
  fill-cons l ls m = ground arith

  fill-IsKeyed : (ls : List Text) (m : Pairs) → IsKeyed m → IsKeyed (fill s ls m)
  unfolding fill
  fill-IsKeyed [] m h = h
  fill-IsKeyed (l ∷ ls) m h =
      subst IsKeyed (sym (fill-cons l ls m))
        (fill-IsKeyed ls (insert_multi (key_of s l) l m) (insert_multi-IsKeyed l m h))

  fill-ascending :
      (ls : List Text) (m : Pairs)
      → ascending text_le (keys m) ≡ true
      → ascending text_le (keys (fill s ls m)) ≡ true
  unfolding fill
  fill-ascending [] m h = h
  fill-ascending (l ∷ ls) m h =
      ap (λ p. ascending text_le (keys p)) (fill-cons l ls m)
      ∙ fill-ascending ls (insert_multi (key_of s l) l m) (
          ap (ascending text_le) (keys-insert_multi (key_of s l) l m)
          ∙ ascending-insert_key (key_of s l) (keys m) h)

  fill-perm : (ls : List Text) (m : Pairs) → Perm (values (fill s ls m)) (ls ++ values m)
  unfolding fill
  fill-perm [] m = Perm.rfl
  fill-perm (l ∷ ls) m =
      subst (λ p. Perm (values p) (l ∷ (ls ++ values m))) (sym (fill-cons l ls m))
        (Perm.trans (fill-perm ls (insert_multi (key_of s l) l m)) (
          Perm.trans (Perm.append_left ls (values-insert_multi-perm (key_of s l) l m))
            (perm_middle ls (values m))))

map-append : {A B : Type 0} (f : A → B) (l r : List A) → map f (l ++ r) ≡ map f l ++ map f r
map-append f [] r = refl
map-append f (x ∷ l) r = ap (f x ∷◌) (map-append f l r)

map-reverse : {A B : Type 0} (f : A → B) (l : List A) → map f (reverse l) ≡ reverse (map f l)
map-reverse f [] = refl
map-reverse f (x ∷ l) =
    ap (map f) (reverse-cons x l)
    ∙ map-append f (reverse l) (x ∷ [])
    ∙ ap (◌++ f x ∷ []) (map-reverse f l)
    ∙ sym (reverse-cons (f x) (map f l))

map-in_order :
    {A B : Type 0} (f : A → B) (d : Bool) (l : List A) → map f (in_order d l) ≡ in_order d (map f l)
map-in_order f true l = map-reverse f l
map-in_order f false l = refl

pub in_order-perm : {A : Type 0} (d : Bool) (l : List A) → Perm (in_order d l) l
in_order-perm true l = reverse_perm l
in_order-perm false l = Perm.rfl

pub in_order-ascending :
    (d : Bool) (l : List Text)
    → ascending text_le l ≡ true
    → ascending (key_order d) (in_order d l) ≡ true
in_order-ascending true l h = ascending-reverse text_le l h
in_order-ascending false l h = h

get_column-values : (m : Pairs) → get_column m ≡ concat (values m)
unfolding get_column
get_column-values [] = refl
get_column-values ((k, v) ∷ m) = ap (v ++◌) (get_column-values m)

-- Sorting whole lines (len is npos) without removing doubles, for a separator of whitespace: the
-- result is the lines of the input, each with the separator, in an order where their keys ascend,
-- or descend if that is asked for.
pub sort_string-ascending :
    (tokens : Text → Text → List Text) (s : Sort) (input sep : Text)
    → all_space sep ≡ true
    → s.unique ≡ false
    → s.len ≡ none
    → (l : List Text) × (sort_string tokens s input sep ≡ some (concat l))
      × Perm l (map (λ t. t ++ sep) (tokens input sep))
      × (ascending (key_order s.descending) (map (key_of s) l) ≡ true)
unfolding sort_string
sort_string-ascending tokens s input sep a u n =
    let d = s.descending in
    let lines = map (λ t. t ++ sep) (tokens input sep) in
    let m = fill s lines [] in
    (
      values (in_order d m),
      ground (arith, get_column-values (in_order d m)),
      subst (λ l. Perm l lines) (sym (map-in_order (λ e. e.1) d m))
          (Perm.trans (in_order-perm d (values m))
            (subst (Perm (values m)) (append-nil lines) (fill-perm s u lines []))),
      ap (λ l. ascending (key_order d) (map (key_of s) l)) (map-in_order (λ e. e.1) d m)
          ∙ ap (ascending (key_order d)) (map-in_order (key_of s) d (values m))
          ∙ ap (λ l. ascending (key_order d) (in_order d l)) (sym (fill-IsKeyed s u lines [] refl))
          ∙ in_order-ascending d (keys m) (fill-ascending s u lines [] refl),
    )
