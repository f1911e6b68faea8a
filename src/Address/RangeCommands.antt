-- ===== src/Address/RangeCommands.antt =====
-- The commands of a range on a visual component (src/vi/addressrange.cpp: change, copy, erase,
-- execute, general, indent, join, move, print, set_selection, yank). What the
-- component does is a parameter; for a component that is not visual the commands are those of the
-- stream. The groups of the undo are left out.
pub mod Laws
use wx_extension.Prelude.{
  ℕ, zero, suc, ◌+◌, ◌-◌, Bool, true, false, not, ◌&&◌, ◌||◌, Option, [], ◌∷◌, ◌==◌, ◌++◌, Text,
  if◌then◌else◌, ℤ, pos, leb_ℤ, eqb_ℤ, ◌+ℤ◌, ◌-ℤ◌, pos_part,
}
use wx_extension.Core.Text.{is_empty, contains}
use wx_extension.Address.Line.{View, Address, get_line}
use wx_extension.Address.Range.{Range, is_ok}
use wx_extension.Sort.{Sort}
use wx_extension.Macros.Registers.{Registers}
use wx_extension.Ex.Buffers.{yank_selection, set_registers_delete, register_text}

-- stream_erase, stream_join, stream_yank, stream_write: the commands of the stream. set_selection:
-- from the start of one line to the start of another, counted from 0. marker_delete:
-- that of ex. rectangle: the two columns that sort takes of a rectangular selection. chosen:
-- register_name of ex, 0 if there is none. sort_selection: sort::selection. file_write: the
-- selected text to a file.
pub record Component (E : Type 0) : Type 0 where
  pub view : View E
  pub is_readonly : E → Bool
  pub is_hexmode : E → Bool
  pub is_print : E → Bool
  pub selected : E → Text
  pub set_selection : ℤ → ℤ → E → E
  pub rectangle : E → Option (ℕ × ℕ)
  pub stream_erase : Range → E → E × Bool
  pub stream_join : Range → E → E × Bool
  pub stream_yank : ℕ → Range → E → E × Bool
  pub stream_write : Text → Bool → Range → E → E × Bool
  pub registers : E → Registers
  pub set_registers : Registers → E → E
  pub chosen : E → ℕ
  pub replace_selection : Text → E → E
  pub marker_delete : ℕ → E → E
  pub add_text : Text → E → E
  pub goto_line : ℤ → E → E
  pub tab : Bool → E → E
  pub join_lines : ℤ → ℤ → E → E
  pub is_recorded_macro : Text → E → Bool
  pub run_macro : Text → E → E × Bool
  pub line_text : ℤ → E → Text
  pub line_number : ℤ → Text
  pub print : Text → E → E
  pub flags_supported : Text → Bool
  pub sort_selection : Sort → E → E × Bool
  pub stoi : Text → Option ℤ
  pub file_write : Text → Bool → E → E × Bool
  pub file_name : Text → Text

module _ {E : Type 0} (x : Component E) where
  -- ex::cut, ex::yank and ex::register_text; their messages are left out
  unfoldable pub cut_selection : E → E
  unfolding yank_selection set_registers_delete
  cut_selection e =
      let text = x.selected e in
      let yanked = x.set_registers (yank_selection (x.chosen e) b'0' text (x.registers e)).0 e in
      let cut = x.replace_selection [] yanked in
      x.set_registers (set_registers_delete text (x.registers cut)) cut

  unfoldable pub yank_to : ℕ → E → E × Bool
  unfolding yank_selection
  yank_to name e =
      let r = yank_selection (x.chosen e) name (x.selected e) (x.registers e) in
      (x.set_registers r.0 e, r.1)

  unfoldable pub current_register : E → Text
  unfolding register_text
  current_register e = register_text (x.chosen e) (x.registers e)

  -- marker_delete of an address, which is that of ex if it is written as a marker
  unfoldable pub delete_written : Text → E → E
  delete_written [] e = e
  delete_written (q ∷ []) e = e
  delete_written (q ∷ m ∷ t) e = if q == 39 then x.marker_delete m e else e

  abbrev pub is_fixed : E → Bool
  is_fixed e = x.is_readonly e || x.is_hexmode e

  abbrev begin_line : Range → E → ℤ
  begin_line r e = get_line x.view r.begin e

  abbrev end_line : Range → E → ℤ
  end_line r e = get_line x.view r.end e

  unfoldable pub select_range : Range → E → E × Bool
  unfolding is_ok
  select_range r e =
      if not (is_empty (x.selected e))
      then (e, true)
      else if not (is_ok x.view r e)
      then (e, false)
      else (x.set_selection (begin_line r e -ℤ pos 1) (end_line r e) e, true)

  unfoldable pub erase_range : Range → E → E × Bool
  unfolding select_range cut_selection delete_written
  erase_range r e =
      if not (x.view.is_visual e)
      then x.stream_erase r e
      else if is_fixed e
      then (e, false)
      else (let s = select_range r e in
          if s.1
          then (
            delete_written r.end.address (delete_written r.begin.address (cut_selection s.0)),
            true,
          )
          else s)

  unfoldable pub change_range : Text → Range → E → E × Bool
  unfolding erase_range
  change_range t r e = let s = erase_range r e in if s.1 then (x.add_text t s.0, true) else s

  unfoldable pub yank_range : ℕ → Range → E → E × Bool
  unfolding select_range yank_to
  yank_range name r e =
      if not (x.view.is_visual e)
      then x.stream_yank name r e
      else (let s = select_range r e in if s.1 then yank_to name s.0 else s)

  -- the early return of general
  unfoldable pub is_refused : ℤ → Range → E → Bool
  is_refused dest_line r e =
      is_fixed e
      || (not (is_ok x.view r e)
          || (eqb_ℤ dest_line (pos 0)
              || (leb_ℤ (begin_line r e) dest_line && leb_ℤ dest_line (end_line r e))))

  -- general(destination, f): true whatever `f` returns
  unfoldable pub general : Address → (Range → E → E × Bool) → Range → E → E × Bool
  unfolding is_refused current_register
  general destination f r e =
      let dest_line = get_line x.view destination e in
      if is_refused dest_line r e
      then (e, false)
      else (let s = f r e in
          (
            if s.1
                then x.add_text (current_register (x.goto_line (dest_line -ℤ pos 1) s.0))
                    (x.goto_line (dest_line -ℤ pos 1) s.0)
                else s.0,
            true,
          ))

  unfoldable pub copy_range : Address → Range → E → E × Bool
  unfolding general yank_range
  copy_range destination r e = general destination (yank_range b'0') r e

  unfoldable pub move_range : Address → Range → E → E × Bool
  unfolding general erase_range
  move_range destination r e = general destination erase_range r e

  -- The loop of execute, for its number of rounds.
  unfoldable pub execute_times : ℕ → Text → E → E × Bool
  execute_times zero reg e = (e, true)
  execute_times (suc n) reg e =
      let s = x.run_macro reg e in
      elim s.1 [ true ↦ execute_times n reg s.0 | false ↦ (s.0, false) ]

  unfoldable pub indent : Bool → Range → E → E × Bool
  unfolding select_range
  indent forward r e =
      if is_fixed e || not (is_ok x.view r e)
      then (e, false)
      else (let s = select_range r e in if s.1 then (x.tab forward s.0, true) else s)

  unfoldable pub join_range : Range → E → E × Bool
  join_range r e =
      if not (x.view.is_visual e)
      then x.stream_join r e
      else if is_fixed e || not (is_ok x.view r e)
      then (e, false)
      else (x.join_lines (begin_line r e -ℤ pos 1) (end_line r e -ℤ pos 1) e, true)

  -- The lines from `i` on, counted from 0.
  unfoldable pub print_lines : ℕ → ℤ → Bool → E → Text
  print_lines zero i numbers e = []
  print_lines (suc n) i numbers e =
      ((if numbers then x.line_number (i +ℤ pos 1) else []) ++ x.line_text i e)
      ++ print_lines n (i +ℤ pos 1) numbers e

  unfoldable pub print_range : Text → Range → E → E × Bool
  unfolding print_lines
  print_range flags r e =
      if not (is_ok x.view r e) || not (x.flags_supported flags) then (e, false) else (
        x.print
            (print_lines (pos_part (end_line r e -ℤ (begin_line r e -ℤ pos 1)))
              (begin_line r e -ℤ pos 1) (contains b'#' flags) e)
            e,
        true,
      )

  -- execute(reg), for the rounds from the begin to the end
  unfoldable pub execute_range : Text → Range → E → E × Bool
  unfolding execute_times
  execute_range reg r e =
      if not (is_ok x.view r e) || not (x.is_recorded_macro reg e)
      then (e, false)
      else execute_times (pos_part (end_line r e -ℤ (begin_line r e -ℤ pos 1))) reg e
