-- ===== src/Address/Substitution/Tests.antt =====
-- The loop of substitute on a row of chars (src/vi/addressrange.cpp).
use wx_extension.Prelude.{
  ℕ, suc, ◌+◌, ◌-◌, true, false, none, some, [], ◌∷◌, ◌++◌, Text, length, take, drop, length-append,
  length-drop, if◌then◌else◌, ltb, ◌≡◌, refl, arith,
}
use wx_extension.Substitute.{Substitute}
use wx_extension.Address.Replacement.{build_replacement}
use wx_extension.Address.Substitution.{
  Editor, answer_yes, advance, replace_match, substitute_matches,
}
use wx_extension.Address.Substitution.Laws.{IsEditor, substitute_matches-ends}

pub record Row : Type 0 where
  pub text : Text
  pub start : ℕ
  pub stop : ℕ

-- The pattern matches any one char of the target.
abbrev row_editor : Editor Row
row_editor = record {
  is_hexmode = λ e. false;
  cases = record { to_upper = λ t. t; to_lower = λ t. t };
  stream_substitute = λ s r e. (e, false);
  is_regex = λ e. true;
  set_search_flags = λ b e. e;
  marker_add = λ c n e. (e, true);
  marker_delete = λ c e. e;
  line_start = λ c e. 0;
  line_end = λ c e. length e.text;
  end_of_line = λ p e. p + (length e.text - p);
  ends_at_start = λ n e. false;
  select_marked = λ b e. e;
  set_target = λ a b e. record e { start = a; stop = b };
  target_start = λ e. e.start;
  target_end = λ e. e.stop;
  target_text = λ e. take (e.stop - e.start) (drop e.start e.text);
  write_target = λ t e. e;
  search = λ t e. if ltb e.start e.stop then some (record e { stop = suc e.start }) else none;
  confirm = λ p t e. (e, answer_yes);
  replace = λ r t e. record e {
    text = (take e.start e.text ++ t) ++ drop e.stop e.text;
    stop = length (take e.start e.text ++ t);
  };
  hexmode_replace = λ t e. e;
  hexmode_sync = λ e. e;
  begin_undo = λ e. e;
  end_undo = λ e. e;
  show_message = λ t e. e;
  clear_indicators = λ e. e;
}

-- each char twice
abbrev doubled : Substitute
doubled = record {
  commands = [];
  options = b'g' ∷ [];
  pattern = b'.' ∷ [];
  replacement = b'&' ∷ b'&' ∷ [];
}

row_editor-IsEditor : IsEditor row_editor doubled
row_editor-IsEditor = record {
  search_lem = λ e f h q. ground arith;
  write_lem = λ t e. omega arith;
  confirm_lem = λ p t e. omega arith;
  replace_lem = λ r t e. omega (
    arith,
    length-append (take e.start e.text ++ t) (drop e.stop e.text),
    length-drop e.stop e.text,
  );
  hexmode_lem = λ t e. omega arith;
  start_lem = λ a b e. refl;
  end_lem = λ a b e. refl;
  marker_lem = λ a b e. refl;
  line_lem = λ p e. omega arith;
}

abbrev two_chars : Row
two_chars = record { text = b'a' ∷ b'b' ∷ []; start = 0; stop = 2 }

substitute_matches-ends_example :
    (r : Row × ℕ) × (substitute_matches row_editor 3 true doubled 0 false two_chars ≡ some r)
substitute_matches-ends_example =
    substitute_matches-ends row_editor doubled row_editor-IsEditor 3 true 0 false two_chars refl
      (omega arith)

-- Both chars are doubled.
doubled_twice :
    substitute_matches row_editor 3 true doubled 0 false two_chars
    ≡ some (record { text = b'a' ∷ b'a' ∷ b'b' ∷ b'b' ∷ []; start = 4; stop = 4 }, 2)
unfolding substitute_matches replace_match advance build_replacement
doubled_twice = refl
