-- ===== src/ExStream/Line.antt =====
-- Class ex_stream_line (src/vi/ex-stream-line.cpp, src/vi/ex-stream-line.h): what one ex command
-- does with each line of the stream. A line is handed over as the first `pos` chars of the current
-- line buffer. What the C++ leaves undefined (a write of more chars than the buffer holds, or of a
-- negative number of chars, a search in a buffer with no terminator) is `none`. Trace messages (the
-- destructor) are not modelled; `write` is that of a file that is open and good.
use wx_extension.Prelude.{
  is_prefix, ℕ, zero, suc, ◌+◌, Bool, true, false, ◌&&◌, Option, none, some, List, [], ◌∷◌, ◌++◌,
  Text, length, take, drop, ℤ, pos, negsuc, sub_ℕ, ◌+ℤ◌, ◌-ℤ◌, leb_ℤ, ltb_ℤ, leb, ltb, ◌==◌,
  if◌then◌else◌, ◌>>=◌,
}
use wx_extension.Macros.Registers.{Registers, get_register, set_register}

pub data Action : Type 0 where
  erase insert join substitute write yank : Action

pub data Handle : Type 0 where
  go_on error stop : Handle

-- What is used of data::substitute (src/data/substitute.cpp) and of the find settings.
pub record Substitute : Type 0 where
  pub pattern : Text
  pub replacement : Text
  pub is_global : Bool
  pub is_regex : Bool

-- What std::regex does with a line: the pattern, the line and the replacement give the new line and
-- the number of the groups of the pattern, or nothing where the pattern does not match.
abbrev pub Regex : Type 0
Regex = Text → Text → Text → Option (Text × ℕ)

pub record StreamLine : Type 0 where
  pub action : Action
  pub subst : Substitute
  pub text : Text
  pub register : ℕ
  pub begin_line : ℤ
  pub end_line : ℤ
  pub actions : ℕ
  pub line : ℕ

-- What a line handler writes to: its file, the registers, and the buffer of the current line.
pub record Output : Type 0 where
  pub file : Text
  pub registers : Registers
  pub buffer : List ℕ

-- The part of class addressrange that is used: the lines of both addresses.
pub record Range : Type 0 where
  pub begin_line : ℕ
  pub end_line : ℕ

-- addressrange::is_ok (src/vi/addressrange.cpp)
abbrev pub is_ok : Range → Bool
is_ok r = ltb 0 r.begin_line && ltb 0 r.end_line && leb r.begin_line r.end_line

abbrev pub no_substitute : Substitute
no_substitute = record { pattern = []; replacement = []; is_global = false; is_regex = false }

-- The four constructors.
unfoldable pub new_action : Action → Range → StreamLine
new_action a r = record {
  action = a;
  subst = no_substitute;
  text = [];
  register = 0;
  begin_line = sub_ℕ r.begin_line 1;
  end_line = elim a [ join ↦ sub_ℕ r.end_line 2 | _ ↦ sub_ℕ r.end_line 1 ];
  actions = 0;
  line = 0;
}

unfoldable pub new_insert : Range → Text → StreamLine
unfolding new_action
new_insert r t = record (new_action insert r) { text = t }

unfoldable pub new_substitute : Range → Substitute → StreamLine
unfolding new_action
new_substitute r d = record (new_action substitute r) { subst = d }

-- The register is emptied at once.
unfoldable pub new_yank : Range → ℕ → Registers → StreamLine × Registers
unfolding new_action
new_yank r name regs =
    (record (new_action yank r) { register = name }, (set_register name [] regs).0)

-- m_file->write(line, n)
unfoldable pub write_chars : List ℕ → ℤ → Output → Option Output
write_chars line (negsuc n) o = none
write_chars line (pos n) o =
    if leb n (length line) then some (record o { file = o.file ++ take n line }) else none

unfoldable pub write_text : Text → Output → Output
write_text t o = record o { file = o.file ++ t }

-- strstr over the memory from `at` on: the text is read up to its terminator.
pub data Found : Type 0 where
  found : ℕ → Found
  missing overrun : Found

unfoldable pub strstr : Text → ℕ → List ℕ → Found
strstr pattern at [] = overrun
strstr pattern at (c ∷ mem) =
    if is_prefix pattern (c ∷ mem)
    then found at
    else if c == 0
    then missing
    else strstr pattern (suc at) mem

-- strncpy of a text with no 0 in it, of exactly its size.
unfoldable pub copy_at : ℕ → Text → List ℕ → Option (List ℕ)
copy_at at t mem =
    if leb (at + length t) (length mem)
    then some (take at mem ++ (t ++ drop (at + length t) mem))
    else none

abbrev pub bump : StreamLine → StreamLine
bump sl = record sl { actions = sl.actions + 1 }

-- The do-while loop of a substitution without a regex. `at` is where the pattern was found, and
-- `n` the length of the line so far, which may become negative.
abbrev pub SubstituteState : Type 0
SubstituteState = record { mem : List ℕ; n : ℤ; count : ℕ }

unfoldable pub substitute_step : Substitute → ℕ → SubstituteState → Option SubstituteState
unfolding copy_at
substitute_step d at s = do
  mem ← copy_at at d.replacement s.mem
  some (record {
    mem = mem;
    n = s.n +ℤ (sub_ℕ (length d.replacement) (length d.pattern));
    count = s.count + 1;
  })

unfoldable pub substitute_loop : ℕ → Substitute → ℕ → SubstituteState → Option SubstituteState
unfolding substitute_step strstr
substitute_loop zero d at s = none
substitute_loop (suc fuel) d at s = do
  s' ← substitute_step d at s
  elim d.is_global [
    | false ↦ some s'
    | true ↦ elim (strstr d.pattern (at + 1) (drop (at + 1) s'.mem)) [
      | found at' ↦ substitute_loop fuel d at' s'
      | missing ↦ some s'
      | overrun ↦ none
    ]
  ]

-- The search position grows with every round and stays within the buffer.
unfoldable pub substitute_plain : StreamLine → ℕ → Output → Option (StreamLine × Output)
unfolding substitute_loop strstr write_chars
substitute_plain sl n o = elim (strstr sl.subst.pattern 0 o.buffer) [
  | found at ↦ (do
    s ←
        substitute_loop (suc (length o.buffer)) sl.subst at
          (record { mem = o.buffer; n = pos n; count = 0 })
    o' ← write_chars s.mem s.n (record o { buffer = s.mem })
    some (record sl { actions = sl.actions + s.count }, o'))
  | missing ↦ (do o' ← write_chars o.buffer (pos n) o; some (sl, o'))
  | overrun ↦ none
]

-- regex::search and regex::replace (src/core/regex.cpp), with the branch between them: the line
-- behind it, and whether it counts. search is the number of the groups, or -1, as a condition: a
-- match without a group is no hit, and where there is no match replace leaves the line.
unfoldable pub search_replace : Option (Text × ℕ) → Text → Text × Bool
search_replace none line = (line, true)
search_replace (some (line', zero)) line = (line, false)
search_replace (some (line', suc k)) line = (line', true)

unfoldable pub substitute_regex : Regex → StreamLine → ℕ → Output → StreamLine × Output
unfolding write_text search_replace
substitute_regex regex sl n o =
    let line = take n o.buffer in
    let r = search_replace (regex sl.subst.pattern line sl.subst.replacement) line in
    (if r.1 then bump sl else sl, write_text r.0 o)

-- The `switch` for a line within the range.
unfoldable pub handle_inside : Regex → StreamLine → ℕ → Output → Option (StreamLine × Output)
unfolding substitute_regex substitute_plain write_chars write_text
handle_inside regex sl n o = elim sl.action [
  | erase ↦ some (bump sl, o)
  | insert ↦ (do o' ← write_chars o.buffer (pos n) (write_text sl.text o); some (bump sl, o'))
  | join ↦ (do o' ← write_chars o.buffer (pos n -ℤ pos 1) o; some (bump sl, o'))
  | substitute ↦
      if sl.subst.is_regex then some (substitute_regex regex sl n o) else substitute_plain sl n o
  | write ↦ (do o' ← write_chars o.buffer (pos n) o; some (bump sl, o'))
  | yank ↦ some (
    bump sl,
    record o {
      registers =
          (set_register sl.register (get_register sl.register o.registers ++ take n o.buffer)
            o.registers).0;
    },
  )
]

-- The `switch` for a line outside the range.
unfoldable pub handle_outside : StreamLine → ℕ → Output → Option (Handle × Output)
unfolding write_chars
handle_outside sl n o = elim sl.action [
  | write ↦ some (go_on, o)
  | yank ↦
      if ltb_ℤ sl.end_line (pos sl.line)
      then some (stop, o)
      else (do o' ← write_chars o.buffer (pos n) o; some (go_on, o'))
  | _ ↦ (do o' ← write_chars o.buffer (pos n) o; some (go_on, o'))
]

abbrev pub in_range : StreamLine → Bool
in_range sl = leb_ℤ sl.begin_line (pos sl.line) && leb_ℤ (pos sl.line) sl.end_line

abbrev pub next_line : StreamLine → StreamLine
next_line sl = record sl { line = sl.line + 1 }

-- handle(line, pos): the result, the members, what was written, and `pos` after the call.
abbrev pub Handled : Type 0
Handled = record { result : Handle; sl : StreamLine; output : Output; n : ℕ }

unfoldable pub handle : Regex → StreamLine → ℕ → Output → Option Handled
unfolding handle_inside handle_outside
handle regex sl n o = elim (in_range sl) [
  | true ↦ (do
    r ← handle_inside regex sl n o
    some (record { result = go_on; sl = next_line r.0; output = r.1; n = 0 }))
  | false ↦ (do
    r ← handle_outside sl n o
    some (elim r.0 [
      | stop ↦ record { result = stop; sl = sl; output = r.1; n = n }
      | h ↦ record { result = h; sl = next_line sl; output = r.1; n = 0 }
    ]))
]
