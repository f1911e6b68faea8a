-- ===== src/Address/Replacement/Laws.antt =====
-- What the replacement of a substitute is (src/vi/addressrange.cpp).
use wx_extension.Prelude.{
  ℕ, Bool, false, ◌||◌, List, [], ◌∷◌, ◌++◌, append_assoc, append-nil, Text, if◌then◌else◌, ◌==◌,
  ◌≡◌, arith, ap,
}
use wx_extension.Address.Replacement.{
  Case, Build, build_char, build_from, build_replacement, convert_case, backslash_char,
}

-- What a replacement is made of: text, the target, and its change to upper or lower case for what
-- follows.
pub data Part : Type 0 where
  literal : ℕ → Part
  target whole upper lower : Part

abbrev is_special : ℕ → Bool
is_special c = c == b'&' || c == backslash_char

-- How it is written: '&' and '\' as text stand behind a backslash.
unfoldable pub written : List Part → Text
written [] = []
written (literal c ∷ ps) = if is_special c then backslash_char ∷ c ∷ written ps else c ∷ written ps
written (target ∷ ps) = b'&' ∷ written ps
written (whole ∷ ps) = backslash_char ∷ b'0' ∷ written ps
written (upper ∷ ps) = backslash_char ∷ b'U' ∷ written ps
written (lower ∷ ps) = backslash_char ∷ b'L' ∷ written ps

-- What it means for a target.
unfoldable pub meaning : Case → List Part → Text → Text × Text
meaning k [] t = ([], t)
meaning k (literal c ∷ ps) t = let r = meaning k ps t in (c ∷ r.0, r.1)
meaning k (target ∷ ps) t = let r = meaning k ps t in (t ++ r.0, r.1)
meaning k (whole ∷ ps) t = let r = meaning k ps t in (t ++ r.0, r.1)
meaning k (upper ∷ ps) t = meaning k ps (k.to_upper t)
meaning k (lower ∷ ps) t = meaning k ps (k.to_lower t)

abbrev ready : Text → Text → Build
ready r t = record { replacement = r; target = t; backslash = false }

build_from-written :
    (k : Case) (ps : List Part) (r t : Text)
    → build_from k (written ps) (ready r t) ≡ ready (r ++ (meaning k ps t).0) (meaning k ps t).1
unfolding build_from build_char convert_case written meaning
build_from-written k [] r t = ground (arith, append-nil r)
build_from-written k (literal c ∷ ps) r t =
    ground
      (arith, append_assoc r (c ∷ []) (meaning k ps t).0, build_from-written k ps (r ++ c ∷ []) t)
build_from-written k (target ∷ ps) r t =
    ground (arith, append_assoc r t (meaning k ps t).0, build_from-written k ps (r ++ t) t)
build_from-written k (whole ∷ ps) r t =
    ground (arith, append_assoc r t (meaning k ps t).0, build_from-written k ps (r ++ t) t)
build_from-written k (upper ∷ ps) r t = build_from-written k ps r (k.to_upper t)
build_from-written k (lower ∷ ps) r t = build_from-written k ps r (k.to_lower t)

-- The replacement that is built from the written form of any sequence of texts, targets ('&' or
-- '\0') and changes of case ('\U', '\L') is their meaning: the texts as they are, each target as
-- the matched text with the changes of case before it, which are also those of the target in the
-- editor.
pub build_replacement-written :
    (k : Case) (ps : List Part) (t : Text) → build_replacement k (written ps) t ≡ meaning k ps t
unfolding build_replacement
build_replacement-written k ps t =
    ap (λ b. (b.replacement, b.target)) (build_from-written k ps [] t)
