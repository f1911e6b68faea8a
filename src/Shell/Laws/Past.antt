-- ===== src/Shell/Laws/Past.antt =====
-- Commands that come back from the history (src/stc/shell.cpp: set_command_from_history,
-- show_command).
use mathlib.Core.Path.{subst}
use wx_extension.Prelude.{
  ℕ, zero, suc, ◌+◌, ◌-◌, ◌≤◌, ◌<◌, Bool, true, false, not, ◌&&◌, none, some, List, [], ◌∷◌, ◌++◌,
  Text, length, take, drop, get_elem?, length-append, length-take, ◌≡◌, refl, ap, sym, ◌∙◌, arith,
  append-nil, Option-cases, inl, inr,
}
use wx_extension.Prelude.{is_prefix}
use wx_extension.Shell.{Doc, Shell, show_command}
use wx_extension.Shell.History.{
  press, up, stoi, last_with_prefix, checked, from_history, set_command_from_history,
}
use wx_extension.Shell.Laws.Texts.{drop-take, drop_all}
use wx_extension.Shell.Laws.Synced.{IsDoc, IsSynced}

abbrev pub none_starts : Text → List Text → Bool
none_starts t [] = true
none_starts t (c ∷ cs) = not (is_prefix t c) && none_starts t cs

last_with_prefix-none :
    (t : Text) (cs : List Text) → last_with_prefix t cs ≡ none → none_starts t cs ≡ true
unfolding last_with_prefix
last_with_prefix-none t [] h = refl
last_with_prefix-none t (c ∷ cs) h = elim (Option-cases (last_with_prefix t cs)) [
  | inl e ↦ ground (arith, e, last_with_prefix-none t cs)
  | inr (d, e) ↦ ground (arith, e)
]

last_with_prefix-some :
    (t : Text) (cs : List Text) (d : Text)
    → last_with_prefix t cs ≡ some d
    → (before : List Text) × (behind : List Text) × (cs ≡ before ++ d ∷ behind)
      × (is_prefix t d ≡ true)
      × (none_starts t behind ≡ true)
unfolding last_with_prefix
last_with_prefix-some t [] d h = cc
last_with_prefix-some t (c ∷ cs) d h = elim (Option-cases (last_with_prefix t cs)) [
  | inl e ↦ ([], cs, ground (arith, e), ground (arith, e), last_with_prefix-none t cs e)
  | inr (u, e) ↦
      let same : u ≡ d = ground (arith, e) in
      let r = last_with_prefix-some t cs d (e ∙ ap some same) in
      (c ∷ r.0, r.1, ap (c ∷◌) r.2, r.3, r.4)
]

get_elem?-some {ℓ} :
    {A : Type ℓ} (xs : List A) (i : ℕ) → i < length xs → (a : A) × (get_elem? xs i ≡ some a)
get_elem?-some [] i h = elim h [ ]
get_elem?-some (x ∷ xs) zero h = (x, refl)
get_elem?-some (x ∷ xs) (suc i) h = get_elem?-some xs i (omega arith)

module _ {D : Type 0} (x : Doc D) where
  from_history-prefix :
      (t : Text) (s : Shell D)
      → stoi t ≡ none
      → from_history x t s ≡ last_with_prefix (checked x t s) s.commands
  unfolding from_history
  from_history-prefix t s n = rw (n, from_history) refl

  set_command-found :
      (t : Text) (s : Shell D) (c : Text)
      → from_history x t s ≡ some c
      → set_command_from_history x t s ≡ (record s { command = c }, true)
  unfolding set_command_from_history
  set_command-found t s c e = rw (e, set_command_from_history) refl

  set_command_missing :
      (t : Text) (s : Shell D)
      → from_history x t s ≡ none
      → (set_command_from_history x t s).1 ≡ false
  unfolding set_command_from_history
  set_command_missing t s e = rw (e, set_command_from_history) refl

  -- The command of ! and a text that is no number, if it is found, is the last one in the history
  -- that starts with the text, and nothing behind it does.
  pub set_command_from_history-prefix :
      (t : Text) (s : Shell D)
      → stoi t ≡ none
      → (set_command_from_history x t s).1 ≡ true
      → (before : List Text) × (behind : List Text) × (s.commands
          ≡ before ++ (set_command_from_history x t s).0.command ∷ behind)
        × (is_prefix (checked x t s) (set_command_from_history x t s).0.command ≡ true)
        × (none_starts (checked x t s) behind ≡ true)
  set_command_from_history-prefix t s n h =
      elim (Option-cases (last_with_prefix (checked x t s) s.commands)) [
        | inl e ↦ cc (set_command_missing t s (from_history-prefix t s n ∙ e))
        | inr (c, e) ↦
            rw (set_command-found t s c (from_history-prefix t s n ∙ e))
              (last_with_prefix-some (checked x t s) s.commands c e)
      ]

  -- the key up, k times
  pub ups : ℕ → Shell D → Shell D
  ups zero s = s
  ups (suc k) s = press x up (ups k s)

  show_command-up :
      (s : Shell D) (i : ℕ) (c : Text)
      → s.iterator - 1 ≡ i
      → get_elem? s.commands i ≡ some c
      → show_command x true s ≡ record s {
        iterator = i;
        command = c;
        doc = x.document_end (x.replace_range s.start (length (x.text s.doc)) c s.doc);
      }
  unfolding show_command
  show_command-up s i c e g =
      rw (e, g, show_command)
        (ap
          (λ (n : ℕ). record s {
            iterator = n;
            command = c;
            doc = x.document_end (x.replace_range s.start (length (x.text s.doc)) c s.doc);
          })
          e)

  -- A shell that shows the command before which `i` others stand.
  pub record IsAt (s : Shell D) (cs : List Text) (i : ℕ) : Type 0 where
    pub synced : IsSynced x s
    pub same_commands : s.commands ≡ cs
    pub place : s.iterator ≡ i
    pub here : get_elem? cs i ≡ some s.command
    pub at_end : x.pos s.doc ≡ length (x.text s.doc)

  show_command-IsAt :
      (s : Shell D) (i : ℕ)
      → IsDoc x
      → IsSynced x s
      → s.iterator ≡ suc i
      → i < length s.commands
      → IsAt (show_command x true s) s.commands i
  show_command-IsAt s i l v e b =
      let (c, g) = get_elem?-some s.commands i b in
      let n = length (x.text s.doc) in
      let whole : x.text (x.document_end (x.replace_range s.start n c s.doc))
          ≡ take s.start (x.text s.doc) ++ (c ++ drop n (x.text s.doc)) =
        l.end_text _ ∙ l.replace_lem s.start n c s.doc v.start_bound (omega arith) in
      rw (show_command-up s i c (omega arith) g) (record {
        synced = record {
          start_bound = rw whole (
              omega (
                arith,
                length-append (take s.start (x.text s.doc)) (c ++ drop n (x.text s.doc)),
                length-take s.start (x.text s.doc),
                v.start_bound,
              ));
          command_shown = rw whole (
              sym (
                drop-take s.start 0 s.start (x.text s.doc) (c ++ drop n (x.text s.doc))
                  (omega arith) v.start_bound
                ∙ (ap (c ++◌) (drop_all (x.text s.doc)) ∙ append-nil c)));
        };
        same_commands = refl;
        place = refl;
        here = g;
        at_end =
            l.end_pos (x.replace_range s.start n c s.doc)
            ∙ ap length (sym (l.end_text (x.replace_range s.start n c s.doc)));
      })

  -- The key up at the end of the text, where nothing is being completed.
  press-up :
      (s : Shell D)
      → x.pos s.doc ≡ length (x.text s.doc)
      → x.autocomp_active s.doc ≡ false
      → press x up s ≡ show_command x true s
  unfolding press
  press-up s e a = ground (arith, e, a)

  -- After the key up so many times, from the end of the history or elsewhere in it, with the caret
  -- at the end of the text, and where nothing is being completed at any of these keys: the command
  -- is the one so many places before, it is what is shown behind the prompt, the caret is at the
  -- end again, and the history is the same.
  pub ups-IsAt :
      (k i : ℕ) (s : Shell D)
      → IsDoc x
      → IsSynced x s
      → s.iterator ≡ i + suc k
      → s.iterator ≤ length s.commands
      → x.pos s.doc ≡ length (x.text s.doc)
      → ((j : ℕ) → x.autocomp_active (ups j s).doc ≡ false)
      → IsAt (ups (suc k) s) s.commands i
  unfolding ups
  ups-IsAt zero i s l v e b z a =
      subst (λ t. IsAt t s.commands i) (sym (press-up s z (a 0)))
        (show_command-IsAt s i l v (omega arith) (omega arith))
  ups-IsAt (suc k) i s l v e b z a =
      let r = ups-IsAt k (suc i) s l v (omega arith) b z a in
      let w = ups (suc k) s in
      subst (λ t. IsAt t s.commands i) (sym (press-up w r.at_end (a (suc k))))
        (subst (λ cs. IsAt (show_command x true w) cs i) r.same_commands
          (show_command-IsAt w i l r.synced r.place (omega (arith, ap length r.same_commands))))
