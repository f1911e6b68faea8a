-- ===== src/Macros/Template/Laws.antt =====
-- What a template expands to (src/vi/macro-fsm.cpp).
use wx_extension.Prelude.{
  ℕ, zero, suc, ◌+◌, ◌-◌, ◌≤◌, Bool, true, false, not, ◌&&◌, Option, none, some, List, [], ◌∷◌,
  ◌++◌, Text, if◌then◌else◌, ◌==◌, eq_text, length, length-append, append_assoc, append-nil, ◌≡◌,
  refl, ap, ◌∙◌, sym, arith, Bool-cases, inl, inr,
}
use wx_extension.Core.Text.{is_empty, contains}
use wx_extension.Macros.Variable.{Variable, is_template}
use wx_extension.Macros.Template.{
  Expander, Read, quote, is_end_of_line, completed, as_text, read_variable, expand_loop,
  expand_template,
}

-- A template: texts without '@', and variables.
pub data Piece : Type 0 where
  literal : Text → Piece
  variable : Text → Piece

-- The template as the file has it.
unfoldable pub source : List Piece → Text
source [] = []
source (literal t ∷ ps) = t ++ source ps
source (variable n ∷ ps) = b'@' ∷ (n ++ b'@' ∷ source ps)

-- What a template means, where `env` has the values: up to the first variable that has none, that
-- is empty, or that is the template itself.
unfoldable pub meaning : (Text → Option Text) → Text → List Piece → Text × Bool
meaning env current [] = ([], true)
meaning env current (literal t ∷ ps) = let r = meaning env current ps in (t ++ r.0, r.1)
meaning env current (variable n ∷ ps) =
    let r = meaning env current ps in
    let value = if eq_text n current then [] else as_text (env n) in
    if is_empty value then ([], false) else (value ++ r.0, r.1)

abbrev pub is_plain : Text → Bool
is_plain [] = true
is_plain (c ∷ t) = not (is_end_of_line c) && (not (c == b'@') && (not (c == quote) && is_plain t))

-- Literals have no '@', and names no char that is not a part of the name.
abbrev pub is_template_of : List Piece → Bool
is_template_of [] = true
is_template_of (literal t ∷ ps) = not (contains b'@' t) && is_template_of ps
is_template_of (variable n ∷ ps) = is_plain n && is_template_of ps

module _ {S : Type 0} (x : Expander S) (current : Text) where
  read_variable-plain :
      (name n t : Text) (s : S)
      → is_plain n ≡ true
      → read_variable x current name none (n ++ b'@' ∷ t) s ≡ record {
        exp = as_text (completed x current (name ++ n) s).0;
        rest = t;
        state = (completed x current (name ++ n) s).1;
      }
  unfolding read_variable
  read_variable-plain name [] t s h =
      ap
        (λ n. record {
          exp = as_text (completed x current n s).0;
          rest = t;
          state = (completed x current n s).1;
        })
        (sym (append-nil name))
  read_variable-plain name (c ∷ n) t s h =
      ground (arith, append_assoc name (c ∷ []) n, read_variable-plain (name ++ c ∷ []) n t s)

  expand_loop-literal :
      (m n : ℕ) (expanded l t : Text) (s : S)
      → m ≡ length l + n
      → contains b'@' l ≡ false
      → expand_loop m x current expanded (l ++ t) s ≡ expand_loop n x current (expanded ++ l) t s
  unfolding expand_loop
  expand_loop-literal m n expanded [] t s e h = ground (arith, append-nil expanded)
  expand_loop-literal zero n expanded (c ∷ l) t s e h = ground arith
  expand_loop-literal (suc m) n expanded (c ∷ l) t s e h =
      ground (
        arith,
        append_assoc expanded (c ∷ []) l,
        expand_loop-literal m n (expanded ++ c ∷ []) l t s,
      )

  expand_loop-nil :
      (n : ℕ) (expanded : Text) (s : S)
      → expand_loop n x current expanded [] s ≡ ((expanded, true), s)
  unfolding expand_loop
  expand_loop-nil n expanded s = refl

  -- what the loop does with a variable that is expanded to `r`
  abbrev after_variable : ℕ → Text → Text → Option Text × S → (Text × Bool) × S
  after_variable n expanded t r = elim (is_empty (as_text r.0)) [
    | true ↦ ((expanded, false), r.1)
    | false ↦ expand_loop n x current (expanded ++ as_text r.0) t r.1
  ]

  expand_loop-variable :
      (n : ℕ) (expanded v t : Text) (s : S)
      → is_plain v ≡ true
      → expand_loop (suc n) x current expanded (b'@' ∷ (v ++ b'@' ∷ t)) s
        ≡ after_variable n expanded t (completed x current v s)
  unfolding expand_loop
  expand_loop-variable n expanded v t s h =
      ap
        (λ (r : Read S). elim (is_empty r.exp) as (λ _. (Text × Bool) × S) [
          | true ↦ ((expanded, false), r.state)
          | false ↦ expand_loop n x current (expanded ++ r.exp) r.rest r.state
        ])
        (read_variable-plain [] v t s h)

  module _ (env : Text → Option Text) (fixed : (n : Text) (s : S) → (x.expand n s).0 ≡ env n) where
    completed-env :
        (n : Text) (s : S)
        → as_text (completed x current n s).0 ≡ (if eq_text n current then [] else as_text (env n))
    unfolding completed
    completed-env n s = ground (arith, fixed n s)

    expand_loop-meaning :
        (n : ℕ) (expanded : Text) (ps : List Piece) (s : S)
        → length (source ps) ≤ n
        → is_template_of ps ≡ true
        → (expand_loop n x current expanded (source ps) s).0
          ≡ (expanded ++ (meaning env current ps).0, (meaning env current ps).1)
    unfolding source meaning
    expand_loop-meaning n expanded [] s b h =
        ap (λ r. r.0) (expand_loop-nil n expanded s) ∙ ground (arith, append-nil expanded)
    expand_loop-meaning n expanded (literal t ∷ ps) s b h = ground (
      arith,
      length-append t (source ps),
      expand_loop-literal n (n - length t) expanded t (source ps) s,
      append_assoc expanded t (meaning env current ps).0,
      expand_loop-meaning (n - length t) (expanded ++ t) ps s,
    )
    expand_loop-meaning zero expanded (variable v ∷ ps) s b h = ground arith
    expand_loop-meaning (suc n) expanded (variable v ∷ ps) s b h =
        let value = if eq_text v current then [] else as_text (env v) in
        elim (Bool-cases (is_empty value)) [
          | inl e ↦ ground (
            arith,
            expand_loop-variable n expanded v (source ps) s,
            completed-env v s,
            append-nil expanded,
          )
          | inr e ↦ ground (
            arith,
            expand_loop-variable n expanded v (source ps) s,
            completed-env v s,
            length-append v (b'@' ∷ source ps),
            append_assoc expanded value (meaning env current ps).0,
            expand_loop-meaning n (expanded ++ value) ps (completed x current v s).1,
          )
        ]

-- A variable that is a template with a name and a value, in the file of which the pieces stand,
-- where the value of a variable does not depend on what is expanded before it: the text is extended
-- by what the template means, and the call reports whether all its variables have a value. A
-- literal has no '@', and the name of a variable has no '@', no quote and no end of line. m_macro
-- is then the name of the template.
pub expand_template-meaning :
    {S : Type 0} (x : Expander S) (env : Text → Option Text) (v : Variable) (ps : List Piece)
    (expanded : Text) (s : S) (macro : Text)
    → ((n : Text) (s : S) → (x.expand n s).0 ≡ env n)
    → is_empty v.name ≡ false
    → is_empty v.value ≡ false
    → is_template v ≡ true
    → is_template_of ps ≡ true
    → let r = expand_template x v (some (source ps)) expanded (s, macro) in
      (r.0 ≡ (expanded ++ (meaning env v.name ps).0, (meaning env v.name ps).1)) × (r.1.1 ≡ v.name)
unfolding expand_template
expand_template-meaning x env v ps expanded s macro fixed n w t h = ground (
  arith,
  expand_loop-meaning x v.name env fixed (length (source ps)) expanded ps (x.set_ask_for_input s)
      (omega arith) h,
)
