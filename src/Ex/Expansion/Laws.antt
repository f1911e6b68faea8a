-- ===== src/Ex/Expansion/Laws.antt =====
-- What a text expands to (src/vi/util.cpp).
use wx_extension.Prelude.{
  ℕ, ◌+◌, Bool, true, false, not, ◌&&◌, none, some, List, [], ◌∷◌, ◌++◌, Text, ◌==◌, ◌≡◌, refl, ap,
  arith, Bool-cases, Option-cases, inl, inr,
}
use wx_extension.Ex.Expansion.{
  Source, quote, control_r, register_value, to_text, expansion, marker_and_register_expansion,
}

-- A char, a marker, and a register or the name of the file.
pub data Piece : Type 0 where
  char marker register : ℕ → Piece

unfoldable pub source : List Piece → Text
source [] = []
source (char c ∷ ps) = c ∷ source ps
source (marker m ∷ ps) = quote ∷ m ∷ source ps
source (register r ∷ ps) = control_r ∷ r ∷ source ps

-- A marker without a line stays as it is.
unfoldable pub marker_value : Source → ℕ → Text
marker_value s m = elim (s.marker_line m) [ some line ↦ to_text (line + 1) | none ↦ quote ∷ m ∷ [] ]

unfoldable pub meaning : Source → List Piece → Text
unfolding marker_value
meaning s [] = []
meaning s (char c ∷ ps) = c ∷ meaning s ps
meaning s (marker m ∷ ps) = marker_value s m ++ meaning s ps
meaning s (register r ∷ ps) = register_value s r ++ meaning s ps

abbrev pub is_char : ℕ → Bool
is_char c = not (c == quote) && not (c == control_r)

-- A char, or the name of a marker without a line, starts nothing.
abbrev pub is_text_of : Source → List Piece → Bool
is_text_of s [] = true
is_text_of s (char c ∷ ps) = is_char c && is_text_of s ps
is_text_of s (marker m ∷ ps) = is_char m && is_text_of s ps
is_text_of s (register r ∷ ps) = is_text_of s ps

-- An output that is not marked as changed is the text.
abbrev Expands : Source → Text → Text → Type 0
Expands s t u = (b : Bool) × (expansion s t ≡ some (u, b)) × (b ≡ false → u ≡ t)

Expands-char :
    (s : Source) (c : ℕ) (t u : Text) → is_char c ≡ true → Expands s t u → Expands s (c ∷ t) (c ∷ u)
unfolding expansion
Expands-char s c [] u h (b, e, same) = (b, ground (arith, e), λ f. ap (c ∷◌) (same f))
Expands-char s c (d ∷ t) u h (b, e, same) = (b, ground (arith, e), λ f. ap (c ∷◌) (same f))

Expands-register :
    (s : Source) (r : ℕ) (t u : Text)
    → Expands s t u
    → Expands s (control_r ∷ r ∷ t) (register_value s r ++ u)
unfolding expansion
Expands-register s r t u (b, e, same) = (true, ground (arith, e), λ f. ground arith)

Expands-marker :
    (s : Source) (m : ℕ) (t u : Text)
    → is_char m ≡ true
    → Expands s t u
    → Expands s (quote ∷ m ∷ t) (marker_value s m ++ u)
unfolding expansion marker_value
Expands-marker s m t u h (b, e, same) = elim (Option-cases (s.marker_line m)) [
  | inr (line, l) ↦ (true, ground (arith, e, l), λ f. ground arith)
  | inl l ↦
      let (b', e', same') = Expands-char s m t u h (b, e, same) in
      (b', ground (arith, e', l), λ f. ground (arith, same' f, l))
]

source-Expands :
    (s : Source) (ps : List Piece) → is_text_of s ps ≡ true → Expands s (source ps) (meaning s ps)
unfolding source meaning
source-Expands s [] h = (false, unfold expansion in refl, λ f. refl)
source-Expands s (char c ∷ ps) h =
    Expands-char s c (source ps) (meaning s ps) (ground arith) (source-Expands s ps (ground arith))
source-Expands s (marker m ∷ ps) h =
    Expands-marker s m (source ps) (meaning s ps) (ground arith)
      (source-Expands s ps (ground arith))
source-Expands s (register r ∷ ps) h =
    Expands-register s r (source ps) (meaning s ps) (source-Expands s ps h)

-- A text of chars, markers and registers, where the chars and the names of the markers are neither
-- a quote nor control-r: it is expanded, without reading behind its end, with each marker that has
-- a line replaced by the number of that line, counted from 1, each register by its contents or the
-- name of the file, and all else as it was.
pub marker_and_register_expansion-meaning :
    (s : Source) (ps : List Piece)
    → is_text_of s ps ≡ true
    → marker_and_register_expansion s (source ps) ≡ some (meaning s ps)
unfolding marker_and_register_expansion
marker_and_register_expansion-meaning s ps h =
    let (b, e, same) = source-Expands s ps h in
    elim (Bool-cases b) [ inl t ↦ ground (arith, e) | inr f ↦ ground (arith, e, same f) ]
