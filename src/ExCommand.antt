-- ===== src/ExCommand.antt =====
-- What is typed in a text entry for ex commands (src/factory/ex-command.cpp,
-- include/wex/ex-command.h). A component is a number, and null is `none`. `none` as a result is a
-- position behind the end of a std::string, which throws. A keycode that is typed is a char.
pub mod Laws
mod Tests
use wx_extension.Prelude.{
  ℕ, ◌+◌, ◌-◌, Bool, true, false, not, ◌&&◌, ◌||◌, Option, none, some, [], ◌∷◌, ◌++◌, Text, length,
  take, drop, get_or, if◌then◌else◌, ◌==◌, ltb, leb,
}
use wx_extension.Core.Text.{is_empty}
use wx_extension.Vi.Motions.{control_r}

-- type_t
pub data CommandType : Type 0 where
  calc command command_ex escape find find_margin empty_command replace vi : CommandType

pub record ExCommand : Type 0 where
  pub text : Text
  pub has_type : Bool
  pub stc : Option ℕ
  pub stc_original : Option ℕ

-- wxTextEntry: its text, the insertion point, and the selection, if there is one.
pub record Entry : Type 0 where
  pub value : Text
  pub point : ℕ
  pub selected : Option (ℕ × ℕ)

pub data EntryKey : Type 0 where
  cut back no_key : EntryKey
  typed : ℕ → EntryKey

abbrev is_null : Option ℕ → Bool
is_null p = elim p [ none ↦ true | some n ↦ false ]

-- type; `visual` and `margin`: is_visual, and a click on the text margin, of a component
unfoldable pub command_type : (ℕ → Bool) → (ℕ → Bool) → ExCommand → CommandType
command_type visual margin c =
    let holds : (ℕ → Bool) → Bool = λ f. elim c.stc [ none ↦ false | some n ↦ f n ] in
    if is_empty c.text || not c.has_type
    then CommandType.empty_command
    else (let k = get_or c.text 0 0 in
        if k == control_r
        then (if ltb 1 (length c.text) && get_or c.text 1 0 == b'='
            then CommandType.calc
            else CommandType.empty_command)
        else if k == b':'
        then (if holds (λ n. not (visual n)) then CommandType.command_ex else CommandType.command)
        else if k == b'!'
        then CommandType.escape
        else if k == b'/' || k == b'?'
        then (if holds margin then CommandType.find_margin else CommandType.find)
        else CommandType.vi)

-- str
unfoldable pub str : (ℕ → Bool) → (ℕ → Bool) → ExCommand → Text
unfolding command_type
str visual margin c = if not c.has_type then c.text else elim (command_type visual margin c) [
  | CommandType.empty_command ↦ []
  | CommandType.calc ↦ take 2 c.text
  | _ ↦ take 1 c.text
]

unfoldable pub append : ℕ → ExCommand → ExCommand
append k c = record c { text = c.text ++ k ∷ [] }

unfoldable pub pop_last : ExCommand → ExCommand
pop_last c = record c { text = take (length c.text - 1) c.text }

-- std::string::erase and insert
abbrev pub erased : ℕ → ℕ → Text → Text
erased i n t = take i t ++ drop (i + n) t

abbrev pub inserted : ℕ → Text → Text → Text
inserted i u t = take i t ++ (u ++ drop i t)

module _ (visual margin : ℕ → Bool) where
  -- the size of str, where there is a type
  abbrev pub offset : ExCommand → ℕ
  offset c = if c.has_type then length (str visual margin c) else 0

  unfoldable pub erase : ℕ → ℕ → ExCommand → Option ExCommand
  unfolding str
  erase i n c =
      let size = length c.text in
      let at = i + offset c in
      let len = if leb size (i + n) then size else n in
      if leb size i
      then some c
      else if ltb size at
      then none
      else some (record c { text = erased at len c.text })

  -- insert, of a text; the insert of a char is that of a text of one char
  unfoldable pub insert : ℕ → Text → ExCommand → Option ExCommand
  unfolding str
  insert i u c =
      if not c.has_type
      then some c
      else if leb (length c.text) i
      then some (record c { text = c.text ++ u })
      else if ltb (length c.text) (i + offset c)
      then none
      else some (record c { text = inserted (i + offset c) u c.text })

  unfoldable pub handle : Entry → EntryKey → ExCommand → Option ExCommand
  unfolding erase insert append pop_last
  handle e cut c = elim e.selected [ none ↦ some c | some (a, b) ↦ erase a (b - a) c ]
  handle e back c =
      let len : ℕ = elim e.selected [ none ↦ 1 | some (a, b) ↦ b - a ] in
      if is_empty c.text
      then some c
      else if e.point == length e.value
      then some (pop_last c)
      else if e.point == 0
      then some c
      else erase (e.point - 1) len c
  handle e no_key c = some c
  handle e (typed k) c =
      if e.point == length e.value then some (append k c) else insert e.point (k ∷ []) c

  unfoldable pub reset : Text → Bool → ExCommand → ExCommand
  unfolding str
  reset t full c =
      let u = if c.has_type then take (length (str visual margin c)) c.text ++ t else t in
      if full then record c { text = u; stc = none; stc_original = none } else record c { text = u }

-- set of a text, and no_type
unfoldable pub set_text : Text → ExCommand → ExCommand
set_text t c = record c { text = t }

unfoldable pub no_type : ExCommand → ExCommand
no_type c = record c { has_type = false }

-- operator=
unfoldable pub assign : ExCommand → ExCommand → ExCommand
assign d c = record c {
  has_type = d.has_type;
  text = d.text;
  stc = if is_null d.stc then c.stc else d.stc;
  stc_original = if is_null d.stc_original then c.stc_original else d.stc_original;
}

unfoldable pub restore : ExCommand → ExCommand → ExCommand
restore d c = record c {
  has_type = d.has_type;
  text = d.text;
  stc =
      if is_null d.stc && is_null d.stc_original
      then c.stc
      else if is_null d.stc_original
      then d.stc
      else d.stc_original;
}

abbrev same_stc : Option ℕ → Option ℕ → Bool
same_stc p q = elim p [ none ↦ is_null q | some n ↦ elim q [ none ↦ false | some k ↦ n == k ] ]

-- set of another command
unfoldable pub set_command : ExCommand → ExCommand → ExCommand
set_command d c = record c {
  has_type = d.has_type;
  text = d.text;
  stc =
      if is_null d.stc && is_null d.stc_original
      then c.stc
      else if same_stc d.stc d.stc_original
      then d.stc
      else d.stc_original;
}

-- exec and append_exec; `vi_command` is that of a component in the state `E`
module _ {E : Type 0} (vi_command : ℕ → Text → E → E × Bool) where
  unfoldable pub exec : ExCommand → E → E × Bool
  exec c e = elim c.stc [ none ↦ (e, false) | some n ↦ vi_command n c.text e ]

  unfoldable pub append_exec_to : ℕ → ExCommand → E → E × Bool
  unfolding exec append
  append_exec_to k c e = exec (append k c) e
