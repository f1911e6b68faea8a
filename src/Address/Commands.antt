-- ===== src/Address/Commands.antt =====
-- The commands of an address (src/vi/address.cpp). `E` is the component, the stream behind it and
-- the frame; what they do is a parameter.
pub mod Laws
use wx_extension.Prelude.{
  ℕ, zero, suc, ◌+◌, ◌-◌, ◌*◌, ◌/◌, Bool, true, false, not, ◌&&◌, ◌||◌, Option, none, some, [], ◌∷◌,
  ◌++◌, Text, length, replicate, drop, eq_text, if◌then◌else◌, ◌==◌, ℤ, pos, ltb_ℤ, leb_ℤ, ◌+ℤ◌,
  ◌-ℤ◌,
}
use wx_extension.Core.Text.{is_empty, contains, after, get_number_of_lines}
use wx_extension.Address.Line.{View, Address, get_line}

-- insert_at: insert_text at the start of a line, counted from 0. stream_insert: insert_text of the
-- stream, after the address or not. window: the regular expression of adjust_window, with v[0],
-- v[1] as a number if there is one, and v[2]. system: the output, `none` for a result other than 0.
pub record Component (E : Type 0) : Type 0 where
  pub view : View E
  pub is_readonly : E → Bool
  pub is_hexmode : E → Bool
  pub insert_at : ℤ → Text → E → E
  pub goto_line : ℤ → E → E
  pub add_text : Text → E → E
  pub stream_insert : Address → Text → Bool → E → E
  pub trim : Text → Text
  pub marker_add : ℕ → ℤ → E → E × Bool
  pub marker_delete : ℕ → E → E × Bool
  pub get_register : ℕ → E → Text
  pub show_ex_input : ℕ → E → E × Bool
  pub visual : E → E
  pub show_line : ℤ → E → E
  pub print : Text → E → E
  pub line_text : ℤ → E → Text
  pub line_number : ℤ → Text
  pub eol : E → Text
  pub system : Text → E → Option Text × E
  pub read_file : Text → E → Option Text
  pub window : Text → Option (Text × Option ℕ × Text)
  pub flags_match : Text → Bool

abbrev starts_shell : Text → Bool
starts_shell [] = false
starts_shell (c ∷ t) = c == b'!'

abbrev is_current : Text → Bool
is_current t = eq_text t (b'.' ∷ [])

-- The first line of the window, and whether it has separators.
unfoldable pub window_begin : Text → ℕ → ℤ → Option (ℤ × Bool)
window_begin [] count line = some (line, false)
window_begin (c ∷ t) count line =
    let n = suc (length t) in
    if c == b'-'
    then some (line -ℤ (pos (n * count) -ℤ pos 1), false)
    else if c == b'+'
    then some (line +ℤ pos ((n - 1) * count + 1), false)
    else if c == b'^'
    then some (line +ℤ (pos ((n + 1) * count) -ℤ pos 1), false)
    else if c == b'=' || c == b'.'
    then (if count == 0 then none else some (line -ℤ pos ((count - 1) / 2), c == b'='))
    else none

module _ {E : Type 0} (x : Component E) where
  abbrev line_of : Address → E → ℤ
  line_of a e = get_line x.view a e

  abbrev is_fixed : E → Bool
  is_fixed e = x.is_readonly e || x.is_hexmode e

  unfoldable pub append_at : Text → Address → E → E × Bool
  append_at t a e =
      let line = line_of a e in
      if leb_ℤ line (pos 0)
      then (e, false)
      else if not (x.view.is_visual e)
      then (x.stream_insert a t true e, true)
      else if is_fixed e
      then (e, false)
      else (
        x.goto_line (line +ℤ pos (get_number_of_lines x.trim t false) -ℤ pos 1)
            (x.insert_at line t e),
        true,
      )

  unfoldable pub insert_before : Text → Address → E → E × Bool
  insert_before t a e =
      let line = line_of a e in
      if leb_ℤ line (pos 0)
      then (e, false)
      else if not (x.view.is_visual e)
      then (x.stream_insert a t false e, true)
      else if is_fixed e
      then (e, false)
      else (x.insert_at (line -ℤ pos 1) t e, true)

  unfoldable pub marker_add_at : ℕ → Address → E → E × Bool
  marker_add_at m a e =
      if ltb_ℤ (pos 0) (line_of a e) then x.marker_add m (line_of a e -ℤ pos 1) e else (e, false)

  unfoldable pub marker_delete_at : Address → E → E × Bool
  marker_delete_at a e = elim a.address [
    | c ∷ m ∷ _ ↦ if c == 39 then x.marker_delete m e else (e, false)
    | _ ↦ (e, false)
  ]

  unfoldable pub put : ℕ → Address → E → E × Bool
  put name a e =
      if is_fixed e || leb_ℤ (line_of a e) (pos 0)
      then (e, false)
      else (x.insert_at (line_of a e) (x.get_register name e) e, true)

  unfoldable pub write_line_number : Address → E → E × Bool
  write_line_number a e =
      if leb_ℤ (line_of a e) (pos 0) then (e, false) else (x.show_line (line_of a e) e, true)

  unfoldable pub flags_supported : Text → Bool
  flags_supported flags = is_empty flags || x.flags_match flags

  -- The lines from `begin` on.
  unfoldable pub window_lines : ℕ → ℤ → Bool → E → Text
  window_lines zero i numbers e = []
  window_lines (suc n) i numbers e =
      ((if numbers then x.line_number i else []) ++ x.line_text (i -ℤ pos 1) e)
      ++ window_lines n (i +ℤ pos 1) numbers e

  abbrev separator : E → Text
  separator e = replicate 40 b'-' ++ x.eol e

  unfoldable pub adjust_window : Text → Address → E → E × Bool
  unfolding window_lines window_begin flags_supported
  adjust_window t a e = elim (x.window t) [
    | none ↦ (e, false)
    | some (type, number, flags) ↦
        let count = elim number as (λ _. ℕ) [ some n ↦ n | none ↦ 2 ] in
        if not (flags_supported flags)
        then (e, false)
        else elim (window_begin type count (line_of a e)) [
          | none ↦ (e, false)
          | some (begin, separated) ↦
              let line = if separated then separator e else [] in
              (x.print (line ++ (window_lines count begin (contains b'#' flags) e ++ line)) e, true)
        ]
  ]

  unfoldable pub read : Text → Address → E → E × Bool
  unfolding append_at
  read arg a e =
      if x.view.is_visual e && (is_fixed e || leb_ℤ (line_of a e) (pos 0))
      then (e, false)
      else if starts_shell arg
      then (let r = x.system (drop 1 arg) e in
          elim r.0 [ some out ↦ append_at out a r.1 | none ↦ (r.1, false) ])
      else elim (x.read_file arg e) [
        | none ↦ (e, false)
        | some buffer ↦
            if not (x.view.is_visual e)
            then (x.stream_insert a buffer false e, true)
            else if is_current a.address
            then (x.add_text buffer e, true)
            else (x.insert_at (line_of a e) buffer e, true)
      ]

  -- What the first char of the command chooses.
  unfoldable pub parse_address : Text → Text → Address → E → E × Bool
  unfolding append_at insert_before marker_add_at put read adjust_window write_line_number
  parse_address [] t a e = (e, false)
  parse_address (c ∷ more) t a e =
      if c == b'a'
      then (if contains b'|' t then append_at (after t b'|' true) a e else x.show_ex_input c e)
      else if c == b'i'
      then (if contains b'|' t then insert_before (after t b'|' true) a e else x.show_ex_input c e)
      else if c == b'k'
      then elim t [ m ∷ _ ↦ marker_add_at m a e | [] ↦ (e, false) ]
      else if c == b'p'
      then (if eq_text (c ∷ more) (b'p' ∷ b'u' ∷ [])
          then elim t [ r ∷ _ ↦ put r a e | [] ↦ put b'0' a e ]
          else (e, false))
      else if c == b'r'
      then read t a e
      else if c == b'v'
      then (x.visual e, true)
      else if c == b'z'
      then adjust_window t a e
      else if c == b'='
      then write_line_number a e
      else (e, false)
