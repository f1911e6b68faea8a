-- ===== src/Substitute/Laws/Texts.antt =====
-- What becomes of the escaped slashes of a text (src/data/substitute.cpp).
use wx_extension.Prelude.{
  ℕ, Bool, true, false, not, ◌&&◌, ◌||◌, none, some, [], ◌∷◌, ◌++◌, map, Text, eq_text,
  if◌then◌else◌, ◌==◌, contains_text, ◌≡◌, refl, ap, ◌∙◌, arith, Bool-cases, inl, inr,
}
use wx_extension.Core.Text.{contains}
use wx_extension.Substitute.{
  backslash, hidden, escaped_slash, tilde, hide, shown, line_parts, is_line_end, around_slash,
  flags_of, tilde,
}

-- Every slash is written with a backslash before it.
abbrev pub escaped : Text → Text
escaped [] = []
escaped (c ∷ t) = if c == b'/' then backslash ∷ b'/' ∷ escaped t else c ∷ escaped t

-- The same text with the char that stands for a slash.
abbrev pub hid_char : ℕ → ℕ
hid_char c = if c == b'/' then hidden else c

abbrev pub hid : Text → Text
hid t = map hid_char t

-- A text of one line, with no backslash, and without the hidden char.
abbrev pub is_plain : ℕ → Bool
is_plain c = not (c == backslash) && (not (is_line_end c) && not (c == hidden))

abbrev pub all_plain : Text → Bool
all_plain [] = true
all_plain (c ∷ t) = is_plain c && all_plain t

abbrev pub all_flags : Text → Bool
all_flags [] = true
all_flags (c ∷ t) = contains c (b'c' ∷ b'g' ∷ b'i' ∷ []) && all_flags t

pub hide-cons : (c : ℕ) (u : Text) → (c == backslash) ≡ false → hide (c ∷ u) ≡ c ∷ hide u
unfolding hide
hide-cons c [] h = refl
hide-cons c (d ∷ u) h = ground arith

pub hide-escaped : (p u : Text) → all_plain p ≡ true → hide (escaped p ++ u) ≡ hid p ++ hide u
unfolding hide
hide-escaped [] u h = refl
hide-escaped (c ∷ p) u h = elim (Bool-cases (c == b'/')) [
  | inl q ↦ rw q (ap (hidden ∷◌) (hide-escaped p u (ground arith)))
  | inr q ↦
      rw q
        (hide-cons c (escaped p ++ u) (ground arith) ∙ ap (c ∷◌) (hide-escaped p u (ground arith)))
]

pub hide-flags : (o : Text) → all_flags o ≡ true → hide o ≡ o
unfolding hide
hide-flags [] h = refl
hide-flags (c ∷ o) h = hide-cons c o (ground arith) ∙ ap (c ∷◌) (hide-flags o (ground arith))

-- An escaped text adds no backslash in front of another one.
pub no_double :
    (p u : Text)
    → all_plain p ≡ true
    → contains_text (backslash ∷ escaped_slash) (escaped p ++ u)
      ≡ contains_text (backslash ∷ escaped_slash) u
no_double [] u h = refl
no_double (c ∷ p) u h = ground (arith, no_double p u)

pub no_hidden :
    (p u : Text) → all_plain p ≡ true → contains hidden (escaped p ++ u) ≡ contains hidden u
no_hidden [] u h = refl
no_hidden (c ∷ p) u h = ground (arith, no_hidden p u)

-- Where no slash is escaped, there was none.
pub no_escaped :
    (p u : Text)
    → all_plain p ≡ true
    → contains_text escaped_slash (escaped p ++ u) ≡ false
    → (hid p ≡ p) × (contains_text escaped_slash u ≡ false)
no_escaped [] u h k = (refl, k)
no_escaped (c ∷ p) u h k = elim (Bool-cases (c == b'/')) [
  | inl q ↦ ground arith
  | inr q ↦ let r = no_escaped p u (ground arith) (ground arith) in (rw q (ap (c ∷◌) r.0), r.1)
]

pub hide_plain : (t : Text) → contains_text escaped_slash t ≡ false → hide t ≡ t
unfolding hide
hide_plain [] h = refl
hide_plain (c ∷ []) h = refl
hide_plain (c ∷ d ∷ t) h = ground (arith, hide_plain (d ∷ t))

abbrev pub has_line_end : Text → Bool
has_line_end [] = false
has_line_end (c ∷ t) = is_line_end c || has_line_end t

pub line_parts_one : (t : Text) → has_line_end t ≡ false → line_parts t ≡ t ∷ []
unfolding line_parts
line_parts_one [] h = refl
line_parts_one (c ∷ t) h = rw (line_parts_one t (ground arith)) (ground arith)

pub around_slash-none : (b : Text) → contains b'/' b ≡ false → around_slash b ≡ none
unfolding around_slash
around_slash-none [] h = refl
around_slash-none (c ∷ b) h = rw (around_slash-none b (ground arith)) (ground arith)

pub around_slash_last :
    (a b : Text) → contains b'/' b ≡ false → around_slash (a ++ b'/' ∷ b) ≡ some (a, b)
unfolding around_slash
around_slash_last [] b h = rw (around_slash-none b h) refl
around_slash_last (c ∷ a) b h = rw (around_slash_last a b h) refl

pub flags_of_all : (o : Text) → all_flags o ≡ true → flags_of o ≡ o
unfolding flags_of
flags_of_all [] h = refl
flags_of_all (c ∷ o) h = ground (arith, flags_of_all o)

pub shown-hid : (p : Text) → all_plain p ≡ true → map shown (hid p) ≡ p
shown-hid [] h = refl
shown-hid (c ∷ p) h = ground (arith, shown-hid p)

pub eq_text-hid : (p : Text) → all_plain p ≡ true → eq_text (hid p) tilde ≡ eq_text p tilde
unfolding eq_text
eq_text-hid [] h = refl
eq_text-hid (c ∷ []) h = ground arith
eq_text-hid (c ∷ d ∷ p) h = ground arith

-- What is needed of the parts of a text, once they are joined.
pub has_line_end-append :
    (t u : Text) → has_line_end t ≡ false → has_line_end u ≡ false → has_line_end (t ++ u) ≡ false
has_line_end-append [] u h k = k
has_line_end-append (c ∷ t) u h k = ground (arith, has_line_end-append t u)

pub has_line_end-hid : (p : Text) → all_plain p ≡ true → has_line_end (hid p) ≡ false
has_line_end-hid [] h = refl
has_line_end-hid (c ∷ p) h = ground (arith, has_line_end-hid p)

pub contains-hid : (p : Text) → contains b'/' (hid p) ≡ false
contains-hid [] = refl
contains-hid (c ∷ p) = ground (arith, contains-hid p)

pub flags_are_plain :
    (o : Text)
    → all_flags o ≡ true
    → (has_line_end o ≡ false)
      × (contains b'/' o ≡ false)
      × (contains hidden o ≡ false)
      × (contains_text (backslash ∷ escaped_slash) o ≡ false)
      × (contains_text escaped_slash o ≡ false)
flags_are_plain [] h = (refl, refl, refl, refl, refl)
flags_are_plain (c ∷ o) h = let r = flags_are_plain o (ground arith) in ground (arith, r)
