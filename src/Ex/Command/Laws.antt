-- ===== src/Ex/Command/Laws.antt =====
-- Which command a text runs (src/vi/ex.cpp).
use wx_extension.Prelude.{
  Bool, true, false, not, ◌&&◌, ◌||◌, some, List, [], ◌∷◌, ◌++◌, Text, eq_text, eq_text→eq, ◌≡◌,
  refl, ap, ◌∙◌, arith, Bool-cases, inl, inr,
}
use wx_extension.Prelude.{is_prefix}
use wx_extension.Ex.Command.{Host, commands, find_command, command_handle}

abbrev quit : Text
quit = b':' ∷ b'q' ∷ []

abbrev pub is_command : List Text → Text → Bool
is_command [] n = false
is_command (m ∷ ms) n = eq_text n m || is_command ms n

-- No name before `n` is a prefix of it, or has it as a prefix.
abbrev own : List Text → Text → Bool
own [] n = true
own (m ∷ ms) n = eq_text n m || (not (is_prefix m n) && (not (is_prefix n m) && own ms n))

is_prefix-append :
    (m n t : Text) → is_prefix m n ≡ false → is_prefix n m ≡ false → is_prefix m (n ++ t) ≡ false
is_prefix-append [] n t h k = ground arith
is_prefix-append (c ∷ m) [] t h k = ground arith
is_prefix-append (c ∷ m) (d ∷ n) t h k = ground (arith, is_prefix-append m n t)

is_prefix_self : (n t : Text) → is_prefix n (n ++ t) ≡ true
is_prefix_self [] t = refl
is_prefix_self (c ∷ n) t = ground (arith, is_prefix_self n t)

find_command-own :
    (ms : List Text) (n t : Text)
    → own ms n ≡ true
    → is_command ms n ≡ true
    → find_command ms (n ++ t) ≡ some n
unfolding find_command
find_command-own [] n t h k = ground arith
find_command-own (m ∷ ms) n t h k = elim (Bool-cases (eq_text n m)) [
  | inl e ↦ ground (arith, is_prefix_self n t, eq_text→eq n m e)
  | inr e ↦ ground (arith, is_prefix-append m n t, find_command-own ms n t)
]

-- what holds of all names holds of each one
abbrev all : (Text → Bool) → List Text → Bool
all p [] = true
all p (m ∷ ms) = p m && all p ms

all_of_command :
    (p : Text → Bool) (ms : List Text) (n : Text)
    → all p ms ≡ true
    → is_command ms n ≡ true
    → p n ≡ true
all_of_command p [] n h k = ground arith
all_of_command p (m ∷ ms) n h k = elim (Bool-cases (eq_text n m)) [
  | inl e ↦ ap p (eq_text→eq n m e) ∙ ground arith
  | inr e ↦ all_of_command p ms n (ground arith) (ground arith)
]

names-own : all (λ m. eq_text m quit || own commands m) commands ≡ true
unfolding eq_text
names-own = refl

-- Each command of the table but `:q`, followed by any text, runs its own handler: no command before
-- it takes it away.
pub command_handle-own :
    {W : Type 0} (x : Host W) (n t : Text) (w : W)
    → is_command commands n ≡ true
    → eq_text n quit ≡ false
    → command_handle x (n ++ t) w ≡ x.handler n (n ++ t) w
unfolding command_handle
command_handle-own x n t w h q =
    let o = all_of_command (λ m. eq_text m quit || own commands m) commands n names-own h in
    ground (arith, find_command-own commands n t (ground arith) h)
