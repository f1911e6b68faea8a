-- ===== src/Address/Global.antt =====
-- The global command (src/vi/addressrange.cpp: global_env and global), after the text of the
-- command is taken apart. What the editor does is a parameter; its undo, search flags, messages and
-- the deletion of the marker at the end are left out. The tokens of boost's char_separator are not
-- empty.
pub mod Laws
use wx_extension.Prelude.{
  ℕ, zero, suc, ◌+◌, Bool, true, false, not, ◌&&◌, ◌||◌, Option, none, some, List, [], ◌∷◌, Text,
  if◌then◌else◌, ◌==◌, ltb, eq_text, ℤ, pos, ltb_ℤ, ◌+ℤ◌, ◌-ℤ◌, pos_part,
}

-- search: SearchInTarget, `none` if it gives -1. run: a command at a line, given from 0.
-- set_target: from the line of the match, or from the end of the match, to the end of the range.
pub record Editor (E : Type 0) : Type 0 where
  pub search : E → Option E
  pub match_line : E → ℕ
  pub set_target : Bool → ℕ → E → E
  pub target_is_empty : E → Bool
  pub run : ℕ → Text → E → E × Bool
  pub mark_target : E → E
  pub mark_line : ℕ → E → E
  pub line_count : E → ℕ
  pub clear_marks : E → E
  pub start_target : E → E

pub record GlobalEnv : Type 0 where
  pub commands : List Text
  pub changes : ℕ

abbrev is_recursive : Text → Bool
is_recursive [] = false
is_recursive (c ∷ t) = c == b'g' || c == b'v'

abbrev is_change : Text → Bool
is_change [] = false
is_change (c ∷ t) = c == b'd' || c == b'm'

-- The loop of the constructor over the tokens.
unfoldable pub global_env : List Text → GlobalEnv
global_env [] = record { commands = []; changes = 0 }
global_env (t ∷ ts) =
    let g = global_env ts in
    if is_recursive t
    then g
    else record { commands = t ∷ g.commands; changes = (if is_change t then 1 else 0) + g.changes }

-- The range, the hits, and what follows in the loops.
pub record Round (E : Type 0) : Type 0 where
  pub ok : Bool
  pub end : ℤ
  pub hits : ℕ
  pub editor : E

abbrev pub has_commands : GlobalEnv → Bool
has_commands g = elim g.commands [ [] ↦ false | _ ∷ _ ↦ true ]

-- The guard: commands that change lines, other than three texts.
unfoldable pub is_infinite : GlobalEnv → Text → Bool
is_infinite g commands =
    ltb 0 g.changes
    && (not (eq_text commands (b'$' ∷ []))
        && (not (eq_text commands (b'1' ∷ [])) && not (eq_text commands (b'd' ∷ []))))

module _ {E : Type 0} where
  unfoldable pub run_all : Editor E → List Text → ℕ → E → E × Bool
  run_all x [] line e = (e, true)
  run_all x (c ∷ cs) line e =
      let r = x.run line c e in elim r.1 [ true ↦ run_all x cs line r.0 | false ↦ (r.0, false) ]

  -- for_each(line)
  unfoldable pub for_line : Editor E → GlobalEnv → ℕ → E → E × Bool
  unfolding run_all
  for_line x g line e =
      if not (has_commands g) then (x.mark_target e, true) else run_all x g.commands line e

  -- The loop of for_each(start, end, hits). Each round brings `i` and `end` closer, so that their
  -- distance is enough fuel.
  unfoldable pub for_from : ℕ → Editor E → GlobalEnv → ℤ → ℤ → ℕ → E → Round E
  unfolding for_line
  for_from zero x g i end hits e = record { ok = true; end = end; hits = hits; editor = e }
  for_from (suc n) x g i end hits e =
      if not (ltb_ℤ i end && ltb_ℤ i (pos (x.line_count e) -ℤ pos 1))
      then record { ok = true; end = end; hits = hits; editor = e }
      else (let r =
            if has_commands g
            then for_line x g (pos_part i) e
            else (x.mark_line (pos_part i) e, true) in
          let next =
            for_from n x g (if g.changes == 0 then i +ℤ pos 1 else i)
              (if g.changes == 0 then end else end -ℤ pos g.changes) (suc hits) r.0 in
          if r.1 then next else record { ok = false; end = end; hits = hits; editor = r.0 })

  -- for_each(start, end, hits)
  unfoldable pub for_lines : Editor E → GlobalEnv → ℤ → ℤ → ℕ → E → Round E
  unfolding for_from
  for_lines x g start end hits e =
      if ltb_ℤ start end
      then for_from (pos_part (end -ℤ start)) x g start end hits e
      else record { ok = true; end = end +ℤ pos 1; hits = hits; editor = e }

  -- One match: its lines, and where the next ones start.
  unfoldable pub for_match : Editor E → GlobalEnv → Bool → ℤ → ℕ → E → Round E
  unfolding for_line for_lines
  for_match x g inverse start hits e =
      if not inverse
      then (let r = for_line x g (x.match_line e) e in
          record {
            ok = r.1;
            end = pos (x.match_line e);
            hits = if r.1 then suc hits else hits;
            editor = r.0;
          })
      else for_lines x g start (pos (x.match_line e)) hits e

  -- What the while loop ends with; `none` if the fuel is not enough.
  unfoldable pub global_loop :
      ℕ → Editor E → GlobalEnv → Bool → Bool → ℤ → ℕ → E → Option (ℤ × Round E)
  unfolding for_match
  global_loop zero x g inverse infinite start hits e = none
  global_loop (suc n) x g inverse infinite start hits e = elim (x.search e) [
    | none ↦ some (start, record { ok = true; end = start; hits = hits; editor = e })
    | some e1 ↦
        let r = for_match x g inverse start hits e1 in
        let start1 = if inverse then r.end +ℤ pos 1 else start in
        if not r.ok
        then some (start, r)
        else if ltb 50 r.hits && infinite
        then some (start1, record r { ok = false })
        else (let e2 = x.set_target (ltb 0 g.changes) (pos_part r.end) r.editor in
            elim (x.target_is_empty e2) [
              | true ↦ some (start1, record r { editor = e2 })
              | false ↦ global_loop n x g inverse infinite start1 r.hits e2
            ])
  ]

  -- What follows the while loop.
  unfoldable pub end_global : Editor E → GlobalEnv → Bool → Option (ℤ × Round E) → Option (Round E)
  unfolding for_lines
  end_global x g inverse none = none
  end_global x g inverse (some (start, r)) =
      if inverse && r.ok
      then some (for_lines x g start (pos (x.line_count r.editor)) r.hits r.editor)
      else some r

  -- global, for a pattern that is not empty and the tokens of the commands, with the hits.
  unfoldable pub global : ℕ → Editor E → (Text → List Text) → Text → Bool → E → Option (Round E)
  unfolding global_env is_infinite global_loop end_global
  global fuel x tokens commands inverse e =
      let g = global_env (tokens commands) in
      end_global x g inverse (
        global_loop fuel x g inverse (is_infinite g commands) (pos 0) 0
          (x.start_target (x.clear_marks e)))
