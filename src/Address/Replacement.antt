-- ===== src/Address/Replacement.antt =====
-- The replacement of a substitute (src/vi/addressrange.cpp: build_replacement, convert_case). The
-- early return is left out: it tests whether the text has the empty text in it ("\0" as a `const
-- char*`), which every text has, so it is never taken. `to_upper` and `to_lower` of boost are
-- parameters; what convert_case writes in the editor is the target that is returned.
pub mod Laws
use wx_extension.Prelude.{ℕ, Bool, false, not, ◌||◌, [], ◌∷◌, ◌++◌, Text, if◌then◌else◌, ◌==◌}

pub record Case : Type 0 where
  pub to_upper : Text → Text
  pub to_lower : Text → Text

abbrev pub backslash_char : ℕ
backslash_char = 92

unfoldable pub convert_case : Case → Text → ℕ → Text
convert_case k target c = if c == b'U' then k.to_upper target else k.to_lower target

-- One char: the replacement, the target, and whether a backslash is open.
pub record Build : Type 0 where
  pub replacement : Text
  pub target : Text
  pub backslash : Bool

unfoldable pub build_char : Case → ℕ → Build → Build
unfolding convert_case
build_char k c b =
    if c == b'&'
    then record b {
      replacement = if not b.backslash then b.replacement ++ b.target else b.replacement ++ c ∷ [];
      backslash = false;
    }
    else if c == b'0'
    then record b {
      replacement = if b.backslash then b.replacement ++ b.target else b.replacement ++ c ∷ [];
      backslash = false;
    }
    else if c == b'L' || c == b'U'
    then record b {
      target = if b.backslash then convert_case k b.target c else b.target;
      replacement = if b.backslash then b.replacement else b.replacement ++ c ∷ [];
      backslash = false;
    }
    else if c == backslash_char
    then record b {
      replacement = if b.backslash then b.replacement ++ c ∷ [] else b.replacement;
      backslash = not b.backslash;
    }
    else record b { replacement = b.replacement ++ c ∷ []; backslash = false }

unfoldable pub build_from : Case → Text → Build → Build
unfolding build_char
build_from k [] b = b
build_from k (c ∷ t) b = build_from k t (build_char k c b)

-- The replacement, and the target in the editor behind the call.
unfoldable pub build_replacement : Case → Text → Text → Text × Text
unfolding build_from
build_replacement k t target =
    let b = build_from k t (record { replacement = []; target = target; backslash = false }) in
    (b.replacement, b.target)
