-- ===== src/Vi/Laws/Counts.antt =====
-- Counts before a command (src/vi/vi.cpp: filter_count, set_last_command).
use wx_extension.Prelude.{
  ℕ, ◌*◌, ◌<◌, Bool, true, false, not, ◌&&◌, some, [], ◌∷◌, ◌++◌, Text, length, drop, ◌==◌,
  is_digit, newline, ◌≡◌, refl, arith,
}
use wx_extension.Core.Text.{contains}
use wx_extension.Vi.Component.{Vi}
use wx_extension.Vi.Count.{
  split_digits, count_match, stoi, filter_count, append_command, set_last_command, last_commands,
}

abbrev pub all_digits : Text → Bool
all_digits [] = true
all_digits (c ∷ t) = is_digit c && all_digits t

-- no digit at the start
abbrev pub is_after_count : Text → Bool
is_after_count [] = true
is_after_count (c ∷ t) = not (is_digit c)

-- A count, as it is typed.
pub record IsCount (c : ℕ) (t : Text) (n : ℕ) : Type 0 where
  pub first_digit : is_digit c ≡ true
  pub first_nonzero : (c == b'0') ≡ false
  pub digits : all_digits t ≡ true
  pub value : stoi (c ∷ t) ≡ some n

-- a text with no line end, for the '.' of a regular expression
abbrev pub is_one_line : Text → Bool
is_one_line t = not (contains newline t) && not (contains 13 t)

pub split_digits-append :
    (a r : Text) → all_digits a ≡ true → is_after_count r ≡ true → split_digits (a ++ r) ≡ (a, r)
unfolding split_digits
split_digits-append [] [] h k = refl
split_digits-append [] (c ∷ r) h k = ground arith
split_digits-append (c ∷ a) r h k = ground (arith, split_digits-append a r)

pub count_match-append :
    (c : ℕ) (a r : Text) {n : ℕ}
    → IsCount c a n
    → is_after_count r ≡ true
    → is_one_line r ≡ true
    → count_match (c ∷ a ++ r) ≡ some (c ∷ a, r)
unfolding count_match
count_match-append c a r h k o =
    rw (split_digits-append (c ∷ a) r (ground (arith, h.first_digit, h.digits)) k)
      (ground (arith, h.first_digit, h.first_nonzero))

drop-append : (a r : Text) → drop (length a) (a ++ r) ≡ r
drop-append [] r = refl
drop-append (c ∷ a) r = drop-append a r

-- What std::stoi gives is an int.
pub stoi-bound : (t : Text) {n : ℕ} → stoi t ≡ some n → n < 2147483648
unfolding stoi
stoi-bound t h = ground arith

module _ {E : Type 0} where
  pub filter_count-append :
      (c : ℕ) (a r : Text) {n : ℕ} (v : Vi E)
      → IsCount c a n
      → is_after_count r ≡ true
      → is_one_line r ≡ true
      → v.count * n < 2147483648
      → filter_count (c ∷ a ++ r) v
        ≡ some (
          record v {
            insert_command = v.insert_command ++ c ∷ a;
            count = v.count * n;
            count_present = true;
          },
          r,
        )
  unfolding filter_count append_command
  filter_count-append c a r v h k o b = ground (arith, count_match-append c a r h k o, h.value)

  -- no count
  pub filter_count_plain :
      (r : Text) (v : Vi E) → is_after_count r ≡ true → filter_count r v ≡ some (v, r)
  unfolding filter_count count_match
  filter_count_plain [] v k = refl
  filter_count_plain (c ∷ r) v k = ground arith

  pub set_last_command-count :
      (c : ℕ) (a : Text) (d : ℕ) (r : Text) {n : ℕ} (v : Vi E)
      → IsCount c a n
      → is_after_count (d ∷ r) ≡ true
      → is_one_line (d ∷ r) ≡ true
      → contains d last_commands ≡ true
      → set_last_command (c ∷ a ++ d ∷ r) v ≡ record v { last_command = c ∷ a ++ d ∷ r }
  unfolding set_last_command
  set_last_command-count c a d r v h k o l =
      ground (arith, count_match-append c a (d ∷ r) h k o, drop-append (c ∷ a) (d ∷ r))
