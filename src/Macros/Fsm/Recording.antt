-- ===== src/Macros/Fsm/Recording.antt =====
-- A macro that is recorded, and played back (src/vi/macro-fsm.cpp, src/vi/macros.cpp).
use wx_extension.Prelude.{
  ℕ, Bool, true, false, List, [], ◌∷◌, ◌++◌, Text, if◌then◌else◌, put, lookup-put, lookup-remove,
  eq_text→eq, is_lower, to_lower, eq_text, eq_text_refl, ◌≡◌, ap, arith, append_assoc, append-nil,
  Bool-cases, Option-cases, inl, inr,
}
use wx_extension.Core.Text.{is_empty}
use wx_extension.Macros.Store.{
  Xml, Store, commands_or_none, macro_element, save_macro, save_document, erase_macro, find_macro,
  is_recorded_macro,
}
use wx_extension.Macros.Fsm.{
  Machine, record_text, as_command, record_macro, lower_name, is_cleared, set_commands, recorded,
  enter_recording,
}

-- What is recorded of the commands that are typed: all but the empty ones.
unfoldable pub kept : List Text → List Text
kept [] = []
kept (c ∷ cs) = if is_empty c then kept cs else as_command c ∷ kept cs

pub to_lower_same : (c : ℕ) → is_lower c ≡ true → (to_lower c ∷ []) ≡ c ∷ []
to_lower_same c h = ground arith

module _ {D : Type 0} where
  -- Each typed command is recorded as a new one.
  unfoldable pub typed : List Text → Machine D → Machine D
  typed [] m = m
  typed (c ∷ cs) m = typed cs (record_text c true m).0

  -- Recording with a macro name, the commands, and the command that stops it.
  unfoldable pub session : Xml D → Text → List Text → Machine D → Machine D
  session xml n cs m = record_macro xml [] (typed cs (record_macro xml n m))

  -- The machine is recording `n`, which has the commands `cs`; another macro `j` has `xs`.
  abbrev IsRecording : Text → List Text → Text → List Text → Machine D → Type 0
  IsRecording n cs j xs m =
      (m.is_recording ≡ true)
      × (m.is_playback ≡ false)
      × (m.macro ≡ n)
      × (is_empty n ≡ false)
      × (commands_or_none n m.store ≡ cs)
      × (commands_or_none j m.store ≡ (if eq_text j n then cs else xs))

  commands_or_none-set :
      (n j : Text) (cs : List Text) (s : Store D)
      → commands_or_none j (set_commands n cs s)
        ≡ (if eq_text j n then cs else commands_or_none j s)
  unfolding commands_or_none
  commands_or_none-set n j cs s = ground (arith, lookup-put n j cs s.macros)

  commands_or_none-same :
      (n j : Text) (s : Store D)
      → commands_or_none j s ≡ (if eq_text j n then commands_or_none n s else commands_or_none j s)
  commands_or_none-same n j s = elim (Bool-cases (eq_text j n)) [
    | inl e ↦ ground (arith, ap (λ t. commands_or_none t s) (eq_text→eq j n e))
    | inr e ↦ ground arith
  ]

  commands_or_none-remove :
      (n j : Text) (s : Store D)
      → commands_or_none j (erase_macro n s).0 ≡ (if eq_text j n then [] else commands_or_none j s)
  unfolding commands_or_none erase_macro is_recorded_macro
  commands_or_none-remove n j s =
      ground (arith, lookup-remove n j s.macros, commands_or_none-same n j s)

  record_text-IsRecording :
      (n t j : Text) (cs xs : List Text) (m : Machine D)
      → IsRecording n cs j xs m
      → IsRecording n
          (if is_empty t then cs else cs ++ as_command t ∷ [])
          j
          xs
          (record_text t true m).0
  unfolding record_text
  record_text-IsRecording n t j cs xs m h = ground (
    arith,
    eq_text_refl n,
    commands_or_none-set n n (cs ++ as_command t ∷ []) m.store,
    commands_or_none-set n j (cs ++ as_command t ∷ []) m.store,
  )

  typed-IsRecording :
      (n j : Text) (ts cs xs : List Text) (m : Machine D)
      → IsRecording n cs j xs m
      → IsRecording n (cs ++ kept ts) j xs (typed ts m)
  unfolding typed kept
  typed-IsRecording n j [] cs xs m h = ground (arith, append-nil cs)
  typed-IsRecording n j (t ∷ ts) cs xs m h = ground (
    arith,
    append_assoc cs (as_command t ∷ []) (kept ts),
    typed-IsRecording n j ts (if is_empty t then cs else cs ++ as_command t ∷ []) xs
        (record_text t true m).0 (record_text-IsRecording n t j cs xs m h),
  )

  -- The commands that a macro has when its recording starts.
  abbrev pub kept_before : Text → Store D → List Text
  kept_before n s = if is_cleared n then [] else commands_or_none (lower_name n) s

  start-IsRecording :
      (xml : Xml D) (n j : Text) (m : Machine D)
      → is_empty n ≡ false
      → m.is_recording ≡ false
      → m.is_playback ≡ false
      → IsRecording
          (lower_name n)
          (kept_before n m.store)
          j
          (commands_or_none j m.store)
          (record_macro xml n m)
  unfolding record_macro enter_recording lower_name is_cleared
  start-IsRecording xml [] j m e i q = ground arith
  start-IsRecording xml (c ∷ []) j m e i q = ground (
    arith,
    to_lower_same c,
    eq_text_refl (c ∷ []),
    commands_or_none-set (c ∷ []) (c ∷ []) [] m.store,
    commands_or_none-set (c ∷ []) j [] m.store,
    commands_or_none-same (to_lower c ∷ []) j m.store,
  )
  start-IsRecording xml (c ∷ d ∷ n) j m e i q = ground (
    arith,
    eq_text_refl (c ∷ d ∷ n),
    commands_or_none-set (c ∷ d ∷ n) (c ∷ d ∷ n) [] m.store,
    commands_or_none-set (c ∷ d ∷ n) j [] m.store,
  )

  commands_or_none-save_document :
      (xml : Xml D) (b : Bool) (j : Text) (s : Store D)
      → commands_or_none j (save_document xml b s).0 ≡ commands_or_none j s
  unfolding save_document commands_or_none
  commands_or_none-save_document xml b j s = ground arith

  commands_or_none-save_macro :
      (xml : Xml D) (n j : Text) (s : Store D)
      → commands_or_none j (save_macro xml n s) ≡ commands_or_none j s
  unfolding save_macro commands_or_none
  commands_or_none-save_macro xml n j s =
      elim (Option-cases (xml.remove_node macro_element n s.doc)) [
        | inl e ↦ ground arith
        | inr (d, e) ↦ ground (
          arith,
          commands_or_none-save_document xml true j (record s {
            macros = put n (commands_or_none n s) s.macros;
            doc = xml.append_node macro_element n (commands_or_none n s) d;
            is_modified = true;
          }),
          lookup-put n j (commands_or_none n s) s.macros,
          commands_or_none-same n j s,
        )
      ]

  -- a macro without commands is one that is not there, or one that has none
  find_macro-commands : (n : Text) (s : Store D) → find_macro n s ≡ [] → commands_or_none n s ≡ []
  unfolding find_macro commands_or_none
  find_macro-commands n s h = ground arith

  stop-commands :
      (xml : Xml D) (n j : Text) (cs xs : List Text) (m : Machine D)
      → IsRecording n cs j xs m
      → ((record_macro xml [] m).is_recording ≡ false)
        × ((record_macro xml [] m).is_playback ≡ false)
        × (commands_or_none j (record_macro xml [] m).store ≡ (if eq_text j n then cs else xs))
  unfolding record_macro recorded
  stop-commands xml n j cs xs m h = ground (
    arith,
    commands_or_none-save_macro xml n j m.store,
    commands_or_none-remove n j m.store,
    find_macro-commands n m.store,
  )

  -- From a machine that neither records nor plays back: a session under a name, that records the
  -- typed commands and stops, leaves the machine idle, and the macro of the name (of one letter:
  -- its lower case) with the typed commands that are not empty, behind the ones it had if the name
  -- is one char that is no small letter. All other macros keep their commands. A command of one
  -- blank is kept as the command that moves right.
  pub session-commands :
      (xml : Xml D) (n j : Text) (ts : List Text) (m : Machine D)
      → is_empty n ≡ false
      → m.is_recording ≡ false
      → m.is_playback ≡ false
      → let m' = session xml n ts m in
        (m'.is_recording ≡ false)
        × (m'.is_playback ≡ false)
        × (commands_or_none j m'.store ≡ (
            if eq_text j (lower_name n)
            then kept_before n m.store ++ kept ts
            else commands_or_none j m.store))
  unfolding session
  session-commands xml n j ts m e i q =
      stop-commands xml (lower_name n) j (kept_before n m.store ++ kept ts)
        (commands_or_none j m.store) (typed ts (record_macro xml n m))
        (typed-IsRecording (lower_name n) j ts (kept_before n m.store) (commands_or_none j m.store)
          (record_macro xml n m) (start-IsRecording xml n j m e i q))
