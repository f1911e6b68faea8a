-- ===== src/Address/RangeParse.antt =====
-- The other commands of a range, and what the first char of a command chooses
-- (src/vi/addressrange.cpp: sort, write, parse).
use wx_extension.Prelude.{
  ℕ, zero, suc, ◌+◌, ◌-◌, ◌^◌, Bool, true, false, not, ◌&&◌, ◌||◌, Option, none, some, [], ◌∷◌,
  Text, if◌then◌else◌, ◌==◌, ℤ, pos, negsuc, ltb_ℤ, ◌+ℤ◌, ◌-ℤ◌, pos_part, is_digit,
}
use wx_extension.Core.Text.{is_empty, contains, after}
use wx_extension.Address.Line.{address_of}
use wx_extension.Address.Range.{Range}
use wx_extension.Address.RangeCommands.{
  Component, is_fixed, select_range, change_range, erase_range, join_range, move_range, print_range,
  copy_range, yank_range, indent, execute_range,
}

-- info_message_t
pub data Info : Type 0 where
  no_info del_info move_info copy_info yank_info : Info

-- global with or without inverse, substitute, escape, and saving the file.
pub record Others (E : Type 0) : Type 0 where
  pub global : Text → Bool → Range → E → E × Bool
  pub substitute : Text → ℕ → Range → E → E × Bool
  pub escape : Text → Range → E → E × Bool
  pub show_ex_input : ℕ → E → E × Bool
  pub save : E → E

-- y - pos + 1 as a size_t; npos is `none`.
unfoldable pub column_length : ℤ → ℕ → Option ℕ
column_length y p = elim (y -ℤ pos p +ℤ pos 1) [
  | pos n ↦ some n
  | negsuc zero ↦ none
  | negsuc (suc n) ↦ some (2 ^ 64 - (n + 2))
]

abbrev pub first_char : Text → ℕ
first_char [] = 0
first_char (c ∷ t) = c

-- find(">>") finds it
abbrev pub has_append : Text → Bool
has_append [] = false
has_append (c ∷ t) = (c == b'>' && first_char t == b'>') || has_append t

module _ {E : Type 0} (x : Component E) where
  -- The position and the length of a sort, before its parameters are read.
  abbrev pub sort_columns : E → ℕ × Option ℕ
  sort_columns e = elim (x.rectangle e) [ none ↦ (0, none) | some (p, n) ↦ (p, some n) ]

  -- What the digits and the digits behind a comma set; an exception of stoi ends this.
  unfoldable pub sort_numbers : Text → ℕ × Option ℕ → ℕ × Option ℕ
  unfolding column_length
  sort_numbers t c = elim (x.stoi t) [
    | none ↦ c
    | some n ↦
        let p = if ltb_ℤ (pos 0) n then pos_part n - 1 else 0 in
        if contains b',' t
        then elim (x.stoi (after t b',' true)) [ none ↦ (p, c.1) | some m ↦ (p, column_length m p) ]
        else (p, c.1)
  ]

  unfoldable pub sort_range : Text → Range → E → E × Bool
  unfolding select_range sort_numbers
  sort_range parameters r e =
      if is_fixed x e
      then (e, false)
      else (let s = select_range x r e in
          let c = sort_columns s.0 in
          let number = is_digit (first_char parameters) in
          let columns = if number then sort_numbers parameters c else c in
          if not s.1
          then s
          else if is_empty parameters
          then x.sort_selection
              (record { descending = false; unique = false; pos = c.0; len = c.1 }) s.0
          else if first_char parameters == b'0'
              || (not (first_char parameters == b'u')
                  && (not (first_char parameters == b'r') && not number))
          then (s.0, false)
          else x.sort_selection
              (record {
                descending = contains b'r' parameters;
                unique = contains b'u' parameters;
                pos = columns.0;
                len = columns.1;
              })
              s.0)

  -- write(text): the name is what file_name makes of the text, or of what is behind its last '>'
  unfoldable pub write_range : Text → Range → E → E × Bool
  unfolding select_range
  write_range t r e =
      let s = select_range x r e in
      let append = has_append t in
      let name = x.file_name (if append then after t b'>' false else t) in
      if not s.1
      then s
      else if not (x.view.is_visual s.0)
      then x.stream_write name append r s.0
      else x.file_write name append s.0

  -- The switch of parse.
  unfoldable pub parse_range : Others E → Text → Text → Range → E → (E × Bool) × Info
  unfolding change_range erase_range join_range move_range print_range copy_range yank_range indent
      execute_range sort_range write_range
  parse_range o [] t r e = ((e, false), no_info)
  parse_range o (c ∷ more) t r e =
      if c == b'c'
      then (
        if contains b'|' t then change_range x (after t b'|' true) r e else o.show_ex_input c e,
        no_info,
      )
      else if c == b'd'
      then (erase_range x r e, del_info)
      else if c == b'v' || c == b'g'
      then (o.global t (c == b'v') r e, no_info)
      else if c == b'j'
      then (join_range x r e, no_info)
      else if c == b'm'
      then (move_range x (address_of t) r e, move_info)
      else if c == b'l' || c == b'p'
      then (if not (x.is_print e) then print_range x t r e else (e, false), no_info)
      else if c == b's' || (c == b'&' || c == b'~')
      then (o.substitute t c r e, no_info)
      else if c == b'S'
      then (sort_range t r e, no_info)
      else if c == b't'
      then (copy_range x (address_of t) r e, copy_info)
      else if c == b'w'
      then (if not (is_empty t) then write_range t r e else (o.save e, true), no_info)
      else if c == b'y'
      then (yank_range x (if is_empty t then b'0' else first_char t) r e, yank_info)
      else if c == b'>'
      then (indent x true r e, no_info)
      else if c == b'<'
      then (indent x false r e, no_info)
      else if c == b'!'
      then (o.escape t r e, no_info)
      else if c == b'@'
      then (execute_range x t r e, no_info)
      else if c == b'#'
      then (if not (x.is_print e) then print_range x (b'#' ∷ t) r e else (e, false), no_info)
      else ((e, false), no_info)
