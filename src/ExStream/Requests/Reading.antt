-- ===== src/ExStream/Requests/Reading.antt =====
-- What a call of get_next_line leaves: where the stream stands, and what is in the line buffer
-- (src/vi/ex-stream.cpp).
use wx_extension.Prelude.{
  ℕ, zero, suc, ◌-◌, ◌<◌, ◌≤◌, ◌≡◌, ◌≢◌, Bool, true, false, Option, none, some, List, [], ◌∷◌, ◌++◌,
  Text, length, drop, arith, refl, sym, ap, ◌∙◌, inl, inr, length-drop, append_assoc, Option-cases,
  append_assoc, Option-cases,
}
use wx_extension.ExStream.Stream.{Input, clear, read_line, getline, at_eof, at_newline, at_limit}
use wx_extension.ExStream.State.{State, Source, content, input, set_input}
use wx_extension.ExStream.Line.{strstr, overrun}
use wx_extension.ExStream.Requests.{on_line}
use wx_extension.ExStream.Navigate.{until_nul, get_next_line, put_line, line_read}

-- How much a line takes of what is left.
read_line-ends :
    (limit : ℕ) (t : Text)
    → ((read_line limit t).1 ≡ at_newline → length (read_line limit t).0 < length t)
      × ((read_line limit t).1 ≡ at_eof → length (read_line limit t).0 ≡ length t)
      × ((read_line limit t).1 ≡ at_limit
          → (length (read_line limit t).0 ≡ limit) × (limit < length t))
unfolding read_line
read_line-ends limit [] = ground arith
read_line-ends zero (c ∷ t) = ground arith
read_line-ends (suc limit) (c ∷ t) = ground (arith, read_line-ends limit t)

-- A line that is read takes a char at least.
getline-at :
    (n : ℕ) (text : Text) (i : Input)
    → 1 < n
    → i.fail ≡ false
    → ((getline n text i).1.fail ≡ true → (getline n text i).1.eof ≡ false)
    → (i.at < (getline n text i).1.at) × ((getline n text i).1.at ≤ length text)
unfolding getline
getline-at n text i h nf s =
    ground (arith, read_line-ends (n - 1) (drop i.at text), length-drop i.at text)

-- The position of a stream, and that it has not failed.
abbrev pub at_of : State → ℕ
at_of s = (input s).at

get_next_line-some :
    (s s₁ : State)
    → put_line
        (getline s.line_size (content s) (input s)).0
        (set_input (getline s.line_size (content s) (input s)).1 s)
      ≡ some s₁
    → get_next_line s ≡ some (line_read (getline s.line_size (content s) (input s)).1 s₁)
unfolding get_next_line
get_next_line-some s s₁ e = ground arith

put_line-input :
    (t : Text) (s s₁ : State)
    → put_line t s ≡ some s₁
    → (input s₁ ≡ input s) × (s₁.source ≡ s.source)
unfolding put_line
put_line-input t s s₁ e = ground arith

line_read-input :
    (i : Input) (s : State) {w : Source}
    → s.source ≡ some w
    → input s ≡ i
    → (line_read i s).0 ≡ true
    → (i.fail ≡ true → i.eof ≡ false)
      × (at_of (line_read i s).1 ≡ i.at)
      × ((input (line_read i s).1).fail ≡ false)
unfolding line_read clear
line_read-input i s o e b = ground arith

-- The line buffer holds a text and its terminator.
abbrev pub IsTerminated : List ℕ → Type 0
IsTerminated mem = (chars : Text) × (rest : List ℕ) × (mem ≡ chars ++ (0 ∷ rest))

put_line-IsTerminated :
    (t : Text) (s s₁ : State) → put_line t s ≡ some s₁ → IsTerminated s₁.current_line
unfolding put_line
put_line-IsTerminated t s s₁ e = (
  t,
  drop (length (t ++ 0 ∷ [])) s.current_line,
  ground (arith, append_assoc t (0 ∷ []) (drop (length (t ++ 0 ∷ [])) s.current_line)),
)

line_read-current_line : (i : Input) (s : State) → (line_read i s).1.current_line ≡ s.current_line
unfolding line_read
line_read-current_line i s = ground arith

module _ (s : State) (r : Bool × State) (e : get_next_line s ≡ some r) where
  line_put :
      (s₁ : State) × (put_line
          (getline s.line_size (content s) (input s)).0
          (set_input (getline s.line_size (content s) (input s)).1 s)
        ≡ some s₁)
      × (r ≡ line_read (getline s.line_size (content s) (input s)).1 s₁)
  unfolding get_next_line
  line_put =
      elim (Option-cases (
        put_line (getline s.line_size (content s) (input s)).0
          (set_input (getline s.line_size (content s) (input s)).1 s))) [
            | inl q ↦ absurd (ground arith)
            | inr (s₁, q) ↦ (s₁, q, ground arith)
          ]

  pub get_next_line-IsTerminated : IsTerminated r.1.current_line
  get_next_line-IsTerminated =
      let (s₁, q, k) = line_put in
      let (chars, rest, m) = put_line-IsTerminated _ _ s₁ q in
      (chars, rest, ap (λ x. x.1.current_line) k ∙ line_read-current_line _ s₁ ∙ m)

  pub get_next_line-at :
      {w : Source}
      → s.source ≡ some w
      → (input s).fail ≡ false
      → 1 < s.line_size
      → r.0 ≡ true
      → (at_of s < at_of r.1) × (at_of r.1 ≤ length (content s)) × ((input r.1).fail ≡ false)
  get_next_line-at {w = w} o nf h b =
      let i = (getline s.line_size (content s) (input s)).1 in
      let (s₁, q, k) = line_put in
      let (p, src) = put_line-input _ _ s₁ q in
      let (x, y, z) =
        line_read-input i s₁ {w = w} (src ∙ ground arith) (p ∙ ground arith)
          (sym (ap (λ t. t.0) k) ∙ b) in
      let (u, v) = getline-at s.line_size (content s) (input s) h nf x in
      (
        omega (arith, u, ap (λ t. at_of t.1) k ∙ y),
        omega (arith, v, ap (λ t. at_of t.1) k ∙ y),
        ap (λ t. (input t.1).fail) k ∙ z,
      )

strstr-terminated :
    (p : Text) (at : ℕ) (chars : Text) (rest : List ℕ) → strstr p at (chars ++ (0 ∷ rest)) ≢ overrun
unfolding strstr
strstr-terminated p at [] rest = ground arith
strstr-terminated p at (c ∷ chars) rest = ground (arith, strstr-terminated p (suc at) chars rest)

pub on_line-total :
    (regex : Option (Text → Bool)) (text : Text) (mem : List ℕ)
    → IsTerminated mem
    → (b : Bool) × (on_line regex text mem ≡ some b)
unfolding on_line
on_line-total (some m) text mem t = (m (until_nul mem), refl)
on_line-total none text mem (chars, rest, e) = elim (Option-cases (on_line none text mem)) [
  | inl q ↦ absurd (ground (arith, strstr-terminated text 0 chars rest))
  | inr (b, q) ↦ (b, q)
]
