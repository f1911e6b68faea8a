-- ===== src/Substitute/Laws.antt =====
-- Reading a substitution that is written with its slashes escaped (src/data/substitute.cpp: set).
mod Texts
use wx_extension.Prelude.{
  true, false, some, List, [], ◌∷◌, ◌++◌, map, append_assoc, Text, eq_text, contains_text, ◌≡◌,
  refl, ap, sym, ◌∙◌, arith, Bool-cases, inl, inr,
}
use wx_extension.Core.Text.{is_empty, contains}
use wx_extension.Substitute.{
  Substitute, backslash, hidden, escaped_slash, hide, shown, groups, groups_three, search_lines,
  around_slash, flags_of, take_groups, tilde, set,
}
use wx_extension.Substitute.Laws.Texts.{
  escaped, hid, all_plain, all_flags, hide-cons, hide-escaped, hide-flags, no_double, no_hidden,
  no_escaped, hide_plain, line_parts_one, around_slash_last, flags_of_all, shown-hid, eq_text-hid,
  has_line_end, has_line_end-append, has_line_end-hid, contains-hid, flags_are_plain,
}

-- The text of a substitution.
abbrev pub written : Text → Text → Text → Text
written p r o = b'/' ∷ (escaped p ++ b'/' ∷ (escaped r ++ b'/' ∷ o))

-- The same text, with the chars that stand for slashes.
abbrev pub plain_form : Text → Text → Text → Text
plain_form p r o = b'/' ∷ (hid p ++ b'/' ∷ (hid r ++ b'/' ∷ o))

hide-written :
    (p r o : Text)
    → all_plain p ≡ true
    → all_plain r ≡ true
    → all_flags o ≡ true
    → hide (written p r o) ≡ plain_form p r o
hide-written p r o h k f =
    hide-cons b'/' (escaped p ++ b'/' ∷ (escaped r ++ b'/' ∷ o)) refl
    ∙ ap (b'/' ∷◌) (
        hide-escaped p (b'/' ∷ (escaped r ++ b'/' ∷ o)) h
        ∙ ap (hid p ++◌) (
            hide-cons b'/' (escaped r ++ b'/' ∷ o) refl
            ∙ ap (b'/' ∷◌) (
                hide-escaped r (b'/' ∷ o) k
                ∙ ap (hid r ++◌) (hide-cons b'/' o refl ∙ ap (b'/' ∷◌) (hide-flags o f)))))

groups_three-found :
    (t a o p q : Text)
    → around_slash t ≡ some (a, o)
    → around_slash a ≡ some (p, q)
    → groups_three (b'/' ∷ t) ≡ some (p ∷ q ∷ flags_of o ∷ [])
unfolding groups_three
groups_three-found t a o p q h k = ground (arith, h, k)

groups_three-plain_form :
    (p r o : Text)
    → all_flags o ≡ true
    → groups_three (plain_form p r o) ≡ some (hid p ∷ hid r ∷ o ∷ [])
groups_three-plain_form p r o f =
    groups_three-found (hid p ++ b'/' ∷ (hid r ++ b'/' ∷ o)) (hid p ++ b'/' ∷ hid r) o (hid p)
      (hid r)
      (rw (← append_assoc (hid p) (b'/' ∷ hid r) (b'/' ∷ o))
        (around_slash_last (hid p ++ b'/' ∷ hid r) o (flags_are_plain o f).1))
      (around_slash_last (hid p) (hid r) (contains-hid r))
    ∙ ap (λ u. some (hid p ∷ hid r ∷ u ∷ [])) (flags_of_all o f)

one_line :
    (p r o : Text)
    → all_plain p ≡ true
    → all_plain r ≡ true
    → all_flags o ≡ true
    → has_line_end (plain_form p r o) ≡ false
one_line p r o h k f =
    has_line_end-append (hid p) (b'/' ∷ (hid r ++ b'/' ∷ o)) (has_line_end-hid p h)
      (has_line_end-append (hid r) (b'/' ∷ o) (has_line_end-hid r k) (flags_are_plain o f).0)

groups-plain_form :
    (p r o : Text)
    → all_plain p ≡ true
    → all_plain r ≡ true
    → all_flags o ≡ true
    → groups (plain_form p r o) ≡ some (hid p ∷ hid r ∷ o ∷ [])
unfolding groups search_lines
groups-plain_form p r o h k f = ground (
  arith,
  line_parts_one (plain_form p r o) (one_line p r o h k f),
  groups_three-plain_form p r o f,
)

-- nothing in the text keeps the slashes from being hidden
no_double-written :
    (p r o : Text)
    → all_plain p ≡ true
    → all_plain r ≡ true
    → all_flags o ≡ true
    → (contains_text (backslash ∷ escaped_slash) (written p r o) ≡ false)
      × (contains hidden (written p r o) ≡ false)
no_double-written p r o h k f =
    let q = flags_are_plain o f in
    (
      no_double p (b'/' ∷ (escaped r ++ b'/' ∷ o)) h ∙ (no_double r (b'/' ∷ o) k ∙ q.3),
      no_hidden p (b'/' ∷ (escaped r ++ b'/' ∷ o)) h ∙ (no_hidden r (b'/' ∷ o) k ∙ q.2),
    )

take_groups-hid :
    (p r o : Text) (s : Substitute)
    → all_plain p ≡ true
    → all_plain r ≡ true
    → is_empty p ≡ false
    → eq_text p tilde ≡ false
    → eq_text r tilde ≡ false
    → take_groups (hid p ∷ hid r ∷ o ∷ []) s
      ≡ record s { pattern = hid p; replacement = hid r; options = o }
unfolding take_groups
take_groups-hid p r o s h k e m n = ground (arith, eq_text-hid p h, eq_text-hid r k)

set_escaped :
    (t : Text) (gs : List Text) (s : Substitute)
    → contains_text (backslash ∷ escaped_slash) t ≡ false
    → contains_text escaped_slash t ≡ true
    → contains hidden t ≡ false
    → groups (hide t) ≡ some gs
    → set t s ≡ (
        let u = take_groups gs s in
        (record u { pattern = map shown u.pattern; replacement = map shown u.replacement }, true))
unfolding set
set_escaped t gs s h k m g = rw (h, k, m, g) (rw (h, k) refl)

set_plain :
    (t : Text) (gs : List Text) (s : Substitute)
    → contains_text escaped_slash t ≡ false
    → groups t ≡ some gs
    → set t s ≡ (take_groups gs s, true)
unfolding set
set_plain t gs s k g = ground (arith, g)

-- A substitution that is written with every slash of its pattern and replacement escaped is read
-- back: for a pattern and a replacement in one line, with no backslash and without the char 1, a
-- pattern that is not empty, neither of them `~`, and options of c, g and i. The commands stay.
pub set-written :
    (p r o : Text) (s : Substitute)
    → all_plain p ≡ true
    → all_plain r ≡ true
    → all_flags o ≡ true
    → is_empty p ≡ false
    → eq_text p tilde ≡ false
    → eq_text r tilde ≡ false
    → set (written p r o) s ≡ (record s { pattern = p; replacement = r; options = o }, true)
set-written p r o s h k f e m n =
    let clear = no_double-written p r o h k f in
    let taken = take_groups-hid p r o s h k e m n in
    let parts = groups-plain_form p r o h k f in
    let form = hide-written p r o h k f in
    elim (Bool-cases (contains_text escaped_slash (written p r o))) [
      | inl q ↦
          set_escaped (written p r o) (hid p ∷ hid r ∷ o ∷ []) s clear.0 q clear.1 (rw form parts)
          ∙ rw taken (rw (shown-hid p h, shown-hid r k) refl)
      | inr q ↦
          let left = no_escaped p (b'/' ∷ (escaped r ++ b'/' ∷ o)) h q in
          let right = no_escaped r (b'/' ∷ o) k left.1 in
          set_plain (written p r o) (hid p ∷ hid r ∷ o ∷ []) s q
            (ap groups (sym (hide_plain (written p r o) q) ∙ form) ∙ parts)
          ∙ rw taken (rw (left.0, right.0) refl)
    ]
