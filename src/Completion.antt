-- ===== src/Completion.antt =====
-- The scopes of auto-completion (src/stc/scope.cpp): a map of names for each fold level. The fold
-- level of the component is an argument, and what is kept for a name (ctags_entry) a type `C` with
-- its default. Trace messages are left out. A name that is not found is past the map of the level
-- also where the level has no map, which the source then reads; after a sync each level has one.
pub mod Laws
mod Tests
use wx_extension.Prelude.{
  ℕ, suc, ◌+◌, ◌-◌, min, Bool, true, false, not, ◌&&◌, ◌||◌, Option, none, some, List, [], ◌∷◌,
  ◌++◌, Text, length, take, get_or, replicate, set, if◌then◌else◌, ◌==◌, ltb, leb, Entries, lookup,
  put,
}
use wx_extension.Core.Text.{is_empty}

-- m_it: an entry of a level, or the end of the map of a level.
pub data Iterator : Type 0 where
  entry : ℕ → Text → Iterator
  past : ℕ → Iterator

pub record Scope (C : Type 0) : Type 0 where
  pub filters : List (Entries C)
  pub it : Iterator

abbrev pub entry_or_past : ℕ → Text → Option ℕ → Iterator
entry_or_past level t o = elim o [ some i ↦ entry i t | none ↦ past level ]

module _ {C : Type 0} where
  abbrev pub has : Text → Entries C → Bool
  has t m = elim (lookup t m) [ some _ ↦ true | none ↦ false ]

  -- The last level whose map has the name; the loop of the source starts there.
  unfoldable pub innermost : Text → List (Entries C) → Option ℕ
  innermost t [] = none
  innermost t (m ∷ ms) = elim (innermost t ms) [
    | some i ↦ some (suc i)
    | none ↦ if has t m then some 0 else none
  ]

  unfoldable pub iterator : ℕ → Text → Scope C → Iterator
  iterator level t s =
      if is_empty t
      then past level
      else entry_or_past level t
          (innermost t (take (suc (min level (length s.filters - 1))) s.filters))

  unfoldable pub is_end : ℕ → Scope C → Bool
  is_end level s =
      leb (length s.filters) level || (elim s.it [ entry i t ↦ false | past k ↦ k == level ])

  unfoldable pub find : ℕ → Text → Scope C → Scope C × Bool
  unfolding is_end
  find level t s = let w = record s { it = iterator level t s } in (w, not (is_end level w))

  -- a level with the empty name
  abbrev pub fresh : C → Entries C
  fresh d = ([], d) ∷ []

  -- check_levels, with the two checks
  unfoldable pub check_levels : C → ℕ → Bool → Bool → Scope C → Scope C
  check_levels d level down up s =
      let size = length s.filters in
      if down && (leb 1 size && ltb level (size - 1))
      then record s { filters = take (suc level) s.filters; it = past level }
      else if up && leb size level
      then record s {
        filters = s.filters ++ replicate (level - size + 1) (fresh d);
        it = past level;
      }
      else s

  unfoldable pub sync : C → ℕ → Scope C → Scope C
  unfolding check_levels
  sync d level s = check_levels d level true true s

  -- map::insert, which keeps an entry that is there
  abbrev insert_new : Text → C → Entries C → Entries C
  insert_new t c m = if has t m then m else put t c m

  -- A level that is not there is outside the vector, which nothing guards.
  unfoldable pub insert : ℕ → Text → C → Scope C → Scope C
  unfolding find
  insert level t c s =
      (find level t
        (record s { filters = set s.filters level (insert_new t c (get_or s.filters level [])) })).0

  -- the entry of the name at the level, which is entered with the default if it is not there
  unfoldable pub get : C → ℕ → Text → Scope C → Scope C × C
  unfolding sync
  get d level t s =
      let w = if length s.filters == 0 then sync d level s else s in
      let m = get_or w.filters level [] in
      elim (lookup t m) [
        | some c ↦ (w, c)
        | none ↦ (record w { filters = set w.filters level (put t d m) }, d)
      ]

  -- class_name(name): the text of the entry that is found if the iterator is at no end; reading the
  -- end of a map is `none`.
  unfoldable pub class_name : (C → Text) → ℕ → Text → Scope C → Option Text
  unfolding iterator is_end
  class_name text_of level t s =
      if length s.filters == 0 || ltb (length s.filters) level
      then some []
      else if is_end level s
      then some []
      else (elim (iterator level t s) [
        | past k ↦ none
        | entry i u ↦ elim (lookup u (get_or s.filters i [])) [
          | none ↦ none
          | some c ↦ some (text_of c)
        ]
      ])
