-- ===== src/FileSearch/Laws/Files.antt =====
-- What a file is written with after a replacement in all its lines (src/common/stream.cpp).
use wx_extension.Prelude.{
  ℕ, suc, ◌+◌, Bool, true, false, ◌||◌, Option, none, some, List, [], ◌∷◌, ◌++◌, Text,
  if◌then◌else◌, ltb, newline, ◌≡◌, refl, ap, sym, ◌∙◌, arith,
}
use wx_extension.Core.Text.{is_empty}
use wx_extension.FileSearch.{
  Settings, Search, Tool, replace_all, match_line, count_match, process, process_lines, run_tool,
}
use wx_extension.FileSearch.Laws.{replace_all-IsReplaced}

-- A line with its replacements, and their count.
abbrev pub replaced : Settings → Text → Text × ℕ
replaced f t = elim (replace_all f.find_string f.replace_string t) [ none ↦ ([], 0) | some r ↦ r ]

-- The lines with their replacements, each with an end, and the count of all.
abbrev pub written : Settings → List Text → Text
written f [] = []
written f (t ∷ ts) = (replaced f t).0 ++ newline ∷ written f ts

abbrev pub replacements : Settings → List Text → ℕ
replacements f [] = 0
replacements f (t ∷ ts) = (replaced f t).1 + replacements f ts

-- A search that replaces a plain text, and asks nothing.
pub record IsPlain (f : Settings) : Type 0 where
  pub replaces : f.tool ≡ Tool.replace
  pub no_regex : f.is_regex ≡ false
  pub no_threshold : f.threshold ≡ none
  pub has_text : is_empty f.find_string ≡ false

abbrev counted : ℕ → Search → Search
counted k s = record s { modified = s.modified || ltb 0 k; actions = s.actions + k }

module _ (f : Settings) (p : IsPlain f) where
  replaced_lem : (t : Text) → replace_all f.find_string f.replace_string t ≡ some (replaced f t)
  replaced_lem t =
      let r = replace_all-IsReplaced f.find_string f.replace_string t p.has_text in
      r.2
      ∙ sym (
          ap
            (λ (o : Option (Text × ℕ)).
              some (elim o as (λ _. Text × ℕ) [ none ↦ ([], 0) | some q ↦ q ]))
            r.2)

  process-replaced :
      (t : Text) (n : ℕ) (s : Search)
      → process f t n s ≡ some ((replaced f t).0, counted (replaced f t).1 s, true)
  unfolding process match_line count_match
  process-replaced t n s = ground (arith, p.replaces, p.no_regex, p.no_threshold, replaced_lem t)

  counted-counted : (k j : ℕ) (s : Search) → counted j (counted k s) ≡ counted (k + j) s
  counted-counted k j s = ground arith

  process_lines-written :
      (ts : List Text) (n : ℕ) (s : Search)
      → process_lines f ts n s ≡ some (written f ts, counted (replacements f ts) s, true)
  unfolding process_lines
  process_lines-written [] n s = ground arith
  process_lines-written (t ∷ ts) n s = ground (
    arith,
    p.replaces,
    process-replaced t n s,
    process_lines-written ts (suc n) (counted (replaced f t).1 s),
    counted-counted (replaced f t).1 (replacements f ts) s,
  )

is_empty-written : (u : Text) (c : ℕ) (v : Text) → is_empty (u ++ c ∷ v) ≡ false
is_empty-written [] c v = refl
is_empty-written (d ∷ u) c v = refl

abbrev started : Bool → ℕ → Search
started m a = record { modified = m; asked = false; actions = a; previous = a; reported = [] }

-- A replacement of a plain text that is not empty, with no threshold, in a file that may be written
-- and has a line, always ends and succeeds: if there is a match, or an earlier run on the same
-- stream had one, the file is written with all its lines, each with its replacements and an end,
-- and otherwise it is not written; the actions go up by the number of replacements.
pub run_tool-written :
    (f : Settings) (t : Text) (ts : List Text) (m : Bool) (a : ℕ)
    → IsPlain f
    → (let k = replacements f (t ∷ ts) in
        run_tool f false (t ∷ ts) m a
        ≡ some (
          true,
          (if m || ltb 0 k then some (written f (t ∷ ts)) else none),
          record {
            modified = m || ltb 0 k;
            asked = false;
            actions = a + k;
            previous = a;
            reported = [];
          },
        ))
unfolding run_tool
run_tool-written f t ts m a p = ground (
  arith,
  p.replaces,
  p.has_text,
  process_lines-written f p (t ∷ ts) 0 (started m a),
  is_empty-written (replaced f t).0 newline (written f ts),
)
