-- ===== src/Macros/Fsm/Playback.antt =====
-- What playing a macro back does with the editor (src/vi/macro-fsm.cpp).
use wx_extension.Prelude.{
  ℕ, zero, suc, Bool, true, false, ◌&&◌, List, [], ◌∷◌, ◌++◌, Text, if◌then◌else◌, eq_text_refl,
  ◌≡◌, refl, ap, ◌∙◌, arith,
}
use wx_extension.Core.Text.{is_empty}
use wx_extension.Macros.Store.{Xml, commands_or_none, get_macro_commands}
use wx_extension.Macros.Fsm.{Machine, lower_name, Undo, all_of, repeated, playback, ask_again}
use wx_extension.Macros.Fsm.Recording.{kept, kept_before, session, session-commands}

module _ {E : Type 0} (edit : Text → E → E) where
  -- The edits of the commands, in order.
  unfoldable pub edits : List Text → E → E
  edits [] e = e
  edits (c ∷ cs) e = edits cs (edit c e)

  unfoldable pub times : ℕ → List Text → E → E
  unfolding edits
  times zero cs e = e
  times (suc n) cs e = times n cs (edits cs e)

abbrev pub all_plain : (Text → Bool) → List Text → Bool
all_plain is_plain [] = true
all_plain is_plain (c ∷ cs) = is_plain c && all_plain is_plain cs

-- A plain command, given to a machine that plays back and does not record, succeeds and only edits:
-- what it gives to macros::record is not recorded then.
module _ {D E : Type 0} (command : Text → Machine D × E → (Machine D × E) × Bool)
    (is_plain : Text → Bool) (edit : Text → E → E)
    (plain : (c : Text) (m : Machine D) (e : E)
      → m.is_recording ≡ false
      → m.is_playback ≡ true
      → is_plain c ≡ true
      → command c (m, e) ≡ ((m, edit c e), true)) where
  all_of-edits :
      (cs : List Text) (m : Machine D) (e : E)
      → m.is_recording ≡ false
      → m.is_playback ≡ true
      → all_plain is_plain cs ≡ true
      → all_of command cs (m, e) ≡ ((m, edits edit cs e), true)
  unfolding all_of edits
  all_of-edits [] m e i q h = refl
  all_of-edits (c ∷ cs) m e i q h =
      ground (arith, plain c m e i q, all_of-edits cs m (edit c e) i q)

  repeated-times :
      (n : ℕ) (cs : List Text) (m : Machine D) (e : E)
      → m.is_recording ≡ false
      → m.is_playback ≡ true
      → all_plain is_plain cs ≡ true
      → repeated n (all_of command cs) (m, e) ≡ ((m, times edit n cs e), true)
  unfolding repeated times
  repeated-times zero cs m e i q h = refl
  repeated-times (suc n) cs m e i q h =
      ground (arith, all_of-edits cs m e i q h, repeated-times n cs m (edits edit cs e) i q h)

  playback-times :
      (undo : Undo E) (n : Text) (k : ℕ) (m : Machine D) (e : E)
      → m.is_recording ≡ false
      → m.is_playback ≡ false
      → all_plain is_plain (commands_or_none n m.store) ≡ true
      → playback undo command n (suc k) (m, e) ≡ (
        (
          record m { store = ask_again m.store; macro = n; is_playback = false },
          undo.end_undo (times edit (suc k) (commands_or_none n m.store) (undo.begin_undo e)),
        ),
        true,
      )
  unfolding playback get_macro_commands
  playback-times undo n k m e i q h = ground (
    arith,
    repeated-times (suc k) (commands_or_none n m.store)
        (record m {
          store = ask_again m.store;
          is_playback = true;
          macro = if m.is_recording then m.macro else n;
        })
        (undo.begin_undo e) i refl h,
  )

  pub playback_of :
      (undo : Undo E) (n : Text) (k : ℕ) (m : Machine D) (e : E) (cs : List Text)
      → m.is_recording ≡ false
      → m.is_playback ≡ false
      → commands_or_none n m.store ≡ cs
      → all_plain is_plain cs ≡ true
      → let r = playback undo command n (suc k) (m, e) in
        (r.0.1 ≡ undo.end_undo (times edit (suc k) cs (undo.begin_undo e)))
        × (r.1 ≡ true)
        × (r.0.0.is_recording ≡ false)
        × (r.0.0.is_playback ≡ false)
  playback_of undo n k m e cs i q hc h =
      let p = playback-times undo n k m e i q (ap (all_plain is_plain) hc ∙ h) in
      (
        ap (λ r. r.0.1) p ∙ ap (λ l. undo.end_undo (times edit (suc k) l (undo.begin_undo e))) hc,
        ap (λ r. r.1) p,
        ap (λ r. r.0.0.is_recording) p ∙ i,
        ap (λ r. r.0.0.is_playback) p,
      )

  -- For a command that, where it is plain and is given to a machine that plays back and does not
  -- record, succeeds, only edits and leaves that machine as it is: a macro of plain commands that
  -- is recorded under a name, and then played back `suc k` times, does the edits that were there
  -- before (none unless the name is one char that is no small letter) and those that were recorded,
  -- `suc k` times in that order, in one group of the undo; it reports success and leaves the
  -- machine idle.
  pub playback-session :
      (xml : Xml D) (undo : Undo E) (n : Text) (ts : List Text) (k : ℕ) (m : Machine D) (e : E)
      → is_empty n ≡ false
      → m.is_recording ≡ false
      → m.is_playback ≡ false
      → all_plain is_plain (kept_before n m.store ++ kept ts) ≡ true
      → let r = playback undo command (lower_name n) (suc k) (session xml n ts m, e) in
        (r.0.1
          ≡ undo.end_undo
              (times edit (suc k) (kept_before n m.store ++ kept ts) (undo.begin_undo e)))
        × (r.1 ≡ true)
        × (r.0.0.is_recording ≡ false)
        × (r.0.0.is_playback ≡ false)
  playback-session xml undo n ts k m e ne i q h =
      let (idle, quiet, commands) = session-commands xml n (lower_name n) ts m ne i q in
      playback_of undo (lower_name n) k (session xml n ts m) e (kept_before n m.store ++ kept ts)
        idle quiet
        (commands
          ∙ ap
              (λ b.
                if b
                then kept_before n m.store ++ kept ts
                else commands_or_none (lower_name n) m.store)
              (eq_text_refl (lower_name n)))
        h
