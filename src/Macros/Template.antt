-- ===== src/Macros/Template.antt =====
-- Expanding a template (src/vi/macro-fsm.cpp: expand_template, read_variable). `S` is what
-- expanding a variable reads and changes: `expand` is expanding_variable, `none` where it returns
-- false, and `set_argument` is variable::set_argument. The file is its text, which is read char by
-- char.
pub mod Laws
use wx_extension.Prelude.{
  ℕ, zero, suc, Bool, true, false, not, ◌||◌, Option, none, some, [], ◌∷◌, ◌++◌, Text,
  if◌then◌else◌, ◌==◌, eq_text, length, newline,
}
use wx_extension.Core.Text.{is_empty}
use wx_extension.Macros.Variable.{Variable, is_template}

pub record Expander (S : Type 0) : Type 0 where
  pub expand : Text → S → Option Text × S
  pub set_argument : Text → S → S
  pub set_ask_for_input : S → S

-- what is read, the rest of the file, and what is changed
pub record Read (S : Type 0) : Type 0 where
  pub exp : Text
  pub rest : Text
  pub state : S

abbrev pub quote : ℕ
quote = 39

abbrev pub is_end_of_line : ℕ → Bool
is_end_of_line c = c == newline || c == 13

abbrev pub as_text : Option Text → Text
as_text none = []
as_text (some t) = t

module _ {S : Type 0} where
  -- the end of read_variable for a completed `name`
  unfoldable pub completed : Expander S → Text → Text → S → Option Text × S
  completed x current name s = if eq_text name current then (none, s) else x.expand name s

  -- read_variable with the separator '@': `name` is read so far. The call for the other separator
  -- reads an argument, `some` of what is read of it, in which that separator only ends it.
  unfoldable pub read_variable : Expander S → Text → Text → Option Text → Text → S → Read S
  unfolding completed
  read_variable x current name arg [] s = record { exp = []; rest = []; state = s }
  read_variable x current name none (c ∷ t) s =
      if is_end_of_line c
      then read_variable x current name none t s
      else if c == b'@'
      then (let r = completed x current name s in
          record { exp = as_text r.0; rest = t; state = r.1 })
      else if c == quote
      then read_variable x current name (some []) t s
      else read_variable x current (name ++ c ∷ []) none t s
  read_variable x current name (some a) (c ∷ t) s =
      if is_end_of_line c
      then read_variable x current name (some a) t s
      else if c == quote
      then (let r = completed x current a s in
          elim (is_empty (as_text r.0)) [
            | true ↦ record { exp = []; rest = t; state = r.1 }
            | false ↦ read_variable x current name none t (x.set_argument (as_text r.0) r.1)
          ])
      else read_variable x current name (some (a ++ c ∷ [])) t s

  -- The loop over the file, for a fuel of at least its length: the text, and whether there is no
  -- error.
  unfoldable pub expand_loop : ℕ → Expander S → Text → Text → Text → S → (Text × Bool) × S
  unfolding read_variable
  expand_loop fuel x current expanded [] s = ((expanded, true), s)
  expand_loop zero x current expanded (c ∷ t) s = ((expanded, false), s)
  expand_loop (suc n) x current expanded (c ∷ t) s = elim (c == b'@') [
    | false ↦ expand_loop n x current (expanded ++ c ∷ []) t s
    | true ↦
        let r = read_variable x current [] none t s in
        elim (is_empty r.exp) [
          | true ↦ ((expanded, false), r.state)
          | false ↦ expand_loop n x current (expanded ++ r.exp) r.rest r.state
        ]
  ]

  -- expand_template, with the text of the file (`none` if it cannot be opened), and with m_macro.
  unfoldable pub expand_template :
      Expander S → Variable → Option Text → Text → S × Text → (Text × Bool) × (S × Text)
  unfolding expand_loop
  expand_template x v file expanded (s, macro) =
      if is_empty v.name || (is_empty v.value || not (is_template v))
      then ((expanded, false), (s, macro))
      else elim file [
        | none ↦ ((expanded, false), (s, macro))
        | some t ↦
            let r = expand_loop (length t) x v.name expanded t (x.set_ask_for_input s) in
            (r.0, (x.set_ask_for_input r.1, v.name))
      ]
