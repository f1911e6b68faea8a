-- ===== src/Macros/Mode/Laws.antt =====
-- Recording and playing back by commands (src/vi/macro-mode.cpp).
use wx_extension.Prelude.{
  ℕ, suc, Bool, true, false, some, List, [], ◌∷◌, Text, is_lower, length, eq_text_refl, ◌≡◌, refl,
  ap, ◌∙◌, arith,
}
use wx_extension.Core.Text.{is_empty}
use wx_extension.Macros.Store.{
  Xml, Store, commands_or_none, find_macro, is_recorded, is_recorded_macro,
}
use wx_extension.Macros.Fsm.{
  Machine, record_macro, lower_name, is_cleared, playback, record_text, enter_recording,
}
use wx_extension.Macros.Fsm.Recording.{kept, typed, session, session-commands, to_lower_same}
use wx_extension.Macros.Fsm.Playback.{times, all_plain, playback_of}
use wx_extension.Macros.Mode.{Surroundings, choose_record, choose_playback, transition_macro}

module _ {D E : Type 0} (w : Surroundings D E) (xml : Xml D) where
  -- restore of the ex command is not seen by the machine and the editor.
  abbrev pub Restores : Type 0
  Restores = (z : Machine D × E) → w.restore z ≡ z

  start_recording :
      (n : Text) (m : Machine D) (e : E)
      → is_empty n ≡ false
      → w.trim_copy (b'q' ∷ n) ≡ b'q' ∷ n
      → Restores
      → transition_macro w xml (b'q' ∷ n) true 1 (m, e)
        ≡ (length (b'q' ∷ n), (record_macro xml n m, e))
  unfolding transition_macro choose_record
  start_recording n m e h t r = ground (arith, t, r (record_macro xml n m, e))

  stop_recording :
      (m : Machine D) (e : E)
      → m.is_recording ≡ true
      → w.trim_copy (b'q' ∷ []) ≡ b'q' ∷ []
      → Restores
      → transition_macro w xml (b'q' ∷ []) false 1 (m, e) ≡ (1, (record_macro xml [] m, e))
  unfolding transition_macro choose_record
  stop_recording m e h t r = ground (arith, t, r (record_macro xml [] m, e))

  play_back :
      (c k : ℕ) (m : Machine D) (e : E)
      → is_lower c ≡ true
      → w.trim_copy (b'@' ∷ c ∷ []) ≡ b'@' ∷ c ∷ []
      → w.register_of (b'@' ∷ c ∷ []) ≡ some (c ∷ [])
      → is_recorded (c ∷ []) m.store ≡ true
      → is_recorded_macro (c ∷ []) m.store ≡ true
      → Restores
      → transition_macro w xml (b'@' ∷ c ∷ []) true (suc k) (m, e)
        ≡ (2, (playback w.undo w.command (c ∷ []) (suc k) (m, e)).0)
  unfolding transition_macro choose_playback
  play_back c k m e l t g h q r =
      ground (arith, t, r (playback w.undo w.command (c ∷ []) (suc k) (m, e)).0)

  start-is_recording :
      (n : Text) (m : Machine D)
      → m.is_recording ≡ false
      → (record_macro xml n m).is_recording ≡ true
  unfolding record_macro enter_recording
  start-is_recording n m h = ground arith

  typed-is_recording : (ts : List Text) (m : Machine D) → (typed ts m).is_recording ≡ m.is_recording
  unfolding typed record_text
  typed-is_recording [] m = refl
  typed-is_recording (t ∷ ts) m = typed-is_recording ts (record_text t true m).0 ∙ ground arith

  recorded_of_commands :
      (n : Text) (s : Store D) (d : Text) (ds : List Text)
      → commands_or_none n s ≡ d ∷ ds
      → (is_recorded n s ≡ true) × (is_recorded_macro n s ≡ true)
  unfolding commands_or_none is_recorded is_recorded_macro find_macro
  recorded_of_commands n s d ds h = ground arith

  -- the commands of a macro with a small letter as its name, behind its session
  session-letter :
      (c : ℕ) (ts : List Text) (m : Machine D)
      → is_lower c ≡ true
      → m.is_recording ≡ false
      → m.is_playback ≡ false
      → let m' = session xml (c ∷ []) ts m in
        (m'.is_recording ≡ false)
        × (m'.is_playback ≡ false)
        × (commands_or_none (c ∷ []) m'.store ≡ kept ts)
  unfolding lower_name is_cleared
  session-letter c ts m l i q =
      let (idle, quiet, commands) = session-commands xml (c ∷ []) (c ∷ []) ts m refl i q in
      (idle, quiet, ground (arith, commands, eq_text_refl (c ∷ []), to_lower_same c l))

  -- What the three commands and the typing between the first two leave, and their results.
  abbrev pub after_commands : ℕ → ℕ → List Text → Machine D × E → ℕ × (Machine D × E)
  after_commands c k ts z =
      let started = transition_macro w xml (b'q' ∷ c ∷ []) true 1 z in
      let stopped =
        transition_macro w xml (b'q' ∷ []) false 1 (typed ts started.1.0, started.1.1) in
      transition_macro w xml (b'@' ∷ c ∷ []) true (suc k) stopped.1

  after_commands-playback :
      (c k : ℕ) (ts : List Text) (d : Text) (ds : List Text) (m : Machine D) (e : E)
      → is_lower c ≡ true
      → kept ts ≡ d ∷ ds
      → m.is_recording ≡ false
      → m.is_playback ≡ false
      → ((t : Text) → w.trim_copy t ≡ t)
      → Restores
      → w.register_of (b'@' ∷ c ∷ []) ≡ some (c ∷ [])
      → after_commands c k ts (m, e)
        ≡ (2, (playback w.undo w.command (c ∷ []) (suc k) (session xml (c ∷ []) ts m, e)).0)
  unfolding session
  after_commands-playback c k ts d ds m e l n i q t r g =
      let m1 = record_macro xml (c ∷ []) m in
      let m2 = typed ts m1 in
      let on : m2.is_recording ≡ true =
        typed-is_recording ts m1 ∙ start-is_recording (c ∷ []) m i in
      let (idle, quiet, commands) = session-letter c ts m l i q in
      let (known, there) =
        recorded_of_commands (c ∷ []) (session xml (c ∷ []) ts m).store d ds (commands ∙ n) in
      ap
        (λ (z : ℕ × (Machine D × E)).
          transition_macro w xml (b'@' ∷ c ∷ []) true (suc k)
            (transition_macro w xml (b'q' ∷ []) false 1 (typed ts z.1.0, z.1.1)).1)
        (start_recording (c ∷ []) m e refl (t _) r)
      ∙ ap (λ (z : ℕ × (Machine D × E)). transition_macro w xml (b'@' ∷ c ∷ []) true (suc k) z.1)
          (stop_recording m2 e on (t _) r)
      ∙ play_back c k (session xml (c ∷ []) ts m) e l (t _) g known there r

-- Where trimming and restoring the ex command change nothing, the register of '@' and the letter is
-- that letter, and the component's command succeeds and only edits where it is plain and the
-- machine plays back and does not record: from an idle
-- machine, the command 'q' with a small letter, plain commands that are typed, of which at least
-- one is not empty, the command 'q', and the command '@' with the letter, given `suc k` times, do
-- the edits of the typed commands `suc k` times in order, in one group of the undo, and leave the
-- machine idle. The last command is reported as read.
pub after_commands-times :
    {D E : Type 0} (w : Surroundings D E) (xml : Xml D) (is_plain : Text → Bool)
    (edit : Text → E → E) (c k : ℕ) (ts : List Text) (d : Text) (ds : List Text) (m : Machine D)
    (e : E)
    → ((c : Text) (m : Machine D) (e : E)
        → m.is_recording ≡ false
        → m.is_playback ≡ true
        → is_plain c ≡ true
        → w.command c (m, e) ≡ ((m, edit c e), true))
    → ((t : Text) → w.trim_copy t ≡ t)
    → Restores w xml
    → w.register_of (b'@' ∷ c ∷ []) ≡ some (c ∷ [])
    → is_lower c ≡ true
    → kept ts ≡ d ∷ ds
    → all_plain is_plain (kept ts) ≡ true
    → m.is_recording ≡ false
    → m.is_playback ≡ false
    → let r = after_commands w xml c k ts (m, e) in
      (r.0 ≡ 2)
      × (r.1.1 ≡ w.undo.end_undo (times edit (suc k) (kept ts) (w.undo.begin_undo e)))
      × (r.1.0.is_recording ≡ false)
      × (r.1.0.is_playback ≡ false)
after_commands-times w xml is_plain edit c k ts d ds m e plain t r g l n p i q =
    let a = after_commands-playback w xml c k ts d ds m e l n i q t r g in
    let (idle, quiet, commands) = session-letter w xml c ts m l i q in
    let (edited, done, stays, ends) =
      playback_of w.command is_plain edit plain w.undo (c ∷ []) k (session xml (c ∷ []) ts m) e
        (kept ts) idle quiet commands p in
    (
      ap (λ z. z.0) a,
      ap (λ z. z.1.1) a ∙ edited,
      ap (λ z. z.1.0.is_recording) a ∙ stays,
      ap (λ z. z.1.0.is_playback) a ∙ ends,
    )
