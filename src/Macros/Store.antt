-- ===== src/Macros/Store.antt =====
-- The macros, the variables and the maps (src/vi/macros.cpp). pugixml's document is a type `D` with
-- the operations of `Xml`; a name that is no XPath text (xpath_exception) gives `none`.
use wx_extension.Prelude.{
  Bool, true, false, not, ◌&&◌, ◌||◌, Option, none, some, List, [], ◌∷◌, ◌++◌, map, Text,
  if◌then◌else◌, Entries, lookup, put, remove, is_digit, length, ltb,
}
use wx_extension.Core.Text.{is_empty}
use wx_extension.Prelude.{is_prefix}
use wx_extension.Macros.Variable.{Variable}

-- remove_node: the first node of the element and the name is taken away, if there is one.
-- append_node: a node at the end, with its texts.
pub record Xml (D : Type 0) : Type 0 where
  pub remove_node : Text → Text → D → Option D
  pub append_node : Text → Text → List Text → D → D
  pub save_file : D → Bool

abbrev pub macro_element : Text
macro_element = b'm' ∷ b'a' ∷ b'c' ∷ b'r' ∷ b'o' ∷ []

pub record Store (D : Type 0) : Type 0 where
  pub macros : Entries (List Text)
  pub variables : Entries Variable
  pub doc : D
  pub is_modified : Bool
  pub is_loaded : Bool
  pub file_exists : Bool

-- `any_of` over the names of a map
unfoldable pub any_starts_with {ℓ} : {V : Type ℓ} → Text → Entries V → Bool
any_starts_with t [] = false
any_starts_with t ((j, v) ∷ m) = is_prefix t j || any_starts_with t m

-- The macros with a name of several letters, and the variables.
unfoldable pub long_names : Entries (List Text) → List Text
long_names [] = []
long_names ((j, v) ∷ m) = if ltb 1 (length j) then j ∷ long_names m else long_names m

module _ {D : Type 0} where
  -- m_macros[macro], which enters a macro that is not there
  unfoldable pub commands_or_none : Text → Store D → List Text
  commands_or_none macro s = elim (lookup macro s.macros) [ some v ↦ v | none ↦ [] ]

  unfoldable pub get_macro_commands : Text → Store D → List Text
  unfolding commands_or_none
  get_macro_commands macro s = commands_or_none macro s

  unfoldable pub find_macro : Text → Store D → List Text
  find_macro macro s = elim (lookup macro s.macros) [
    | some v ↦ v
    | none ↦ elim (lookup macro s.variables) [ some v ↦ v.value ∷ [] | none ↦ [] ]
  ]

  unfoldable pub is_recorded : Text → Store D → Bool
  unfolding find_macro
  is_recorded macro s = elim (find_macro macro s) [ [] ↦ false | _ ∷ _ ↦ true ]

  unfoldable pub is_recorded_macro : Text → Store D → Bool
  is_recorded_macro macro s = elim (lookup macro s.macros) [ some v ↦ true | none ↦ false ]

  unfoldable pub erase_macro : Text → Store D → Store D × Bool
  unfolding is_recorded_macro
  erase_macro macro s =
      if not (is_recorded_macro macro s)
      then (s, false)
      else (record s { macros = remove macro s.macros }, true)

  unfoldable pub save_document : Xml D → Bool → Store D → Store D × Bool
  save_document xml only_if_modified s =
      if not s.is_loaded || (not s.file_exists || (not s.is_modified && only_if_modified))
      then (s, false)
      else if xml.save_file s.doc
      then (record s { is_modified = false }, true)
      else (s, false)

  -- The node is written with the commands that `m_macros[macro]` holds.
  unfoldable pub save_macro : Xml D → Text → Store D → Store D
  unfolding commands_or_none save_document
  save_macro xml macro s = elim (xml.remove_node macro_element macro s.doc) [
    | none ↦ s
    | some d ↦
        let cs = commands_or_none macro s in
        (save_document xml true (record s {
          macros = put macro cs s.macros;
          doc = xml.append_node macro_element macro cs d;
          is_modified = true;
        })).0
  ]

  unfoldable pub starts_with : Text → Store D → Bool
  unfolding any_starts_with
  starts_with [] s = false
  starts_with (c ∷ t) s =
      if is_digit c
      then false
      else any_starts_with (c ∷ t) s.macros || any_starts_with (c ∷ t) s.variables

  unfoldable pub get_names : (List Text → List Text) → Store D → List Text
  unfolding long_names
  get_names sort s = sort (long_names s.macros ++ map (λ e. e.0) s.variables)

  -- set<S, T>: an entry of the container and the node of the element `xpath` of the document, with
  -- whether the macros are modified.
  unfoldable pub set_entry :
      Xml D → Text → Text → Text → Entries Text → D → Bool → Entries Text × D × Bool
  set_entry xml xpath name value container doc modified = elim (xml.remove_node xpath name doc) [
    | none ↦ (container, doc, modified)
    | some d ↦
        if is_empty value
        then (remove name container, d, true)
        else (put name value container, xml.append_node xpath name (value ∷ []) d, true)
  ]
