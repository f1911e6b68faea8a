-- ===== src/Macros/Variable.antt =====
-- A variable of the macros (src/vi/variable.cpp): its type, its node in the macro file, and when it
-- asks for input. A node is what the code reads and writes of it: an attribute that is not there is
-- `none`, and its value() is then the empty text.
pub mod Laws
use wx_extension.Prelude.{
  Bool, true, false, not, Option, none, some, [], ◌∷◌, Text, ◌&&◌, if◌then◌else◌, eq_text,
}
use wx_extension.Core.Text.{is_empty}

pub data Input : Type 0 where
  builtin environment fixed input input_once input_save process template : Input

pub record Variable : Type 0 where
  pub name : Text
  pub value : Text
  pub format : Text
  pub prefix : Text
  pub type : Input
  pub ask_for_input : Bool

pub record Node : Type 0 where
  pub name_attribute : Option Text
  pub type_attribute : Option Text
  pub prefix_attribute : Option Text
  pub format_attribute : Option Text
  pub text : Text

abbrev pub value_of : Option Text → Text
value_of none = []
value_of (some t) = t

unfoldable pub is_input : Variable → Bool
is_input v = elim v.type [ input ↦ true | input_once ↦ true | input_save ↦ true | _ ↦ false ]

abbrev pub is_template : Variable → Bool
is_template v = elim v.type [ template ↦ true | _ ↦ false ]

abbrev pub is_once : Variable → Bool
is_once v = elim v.type [ input_once ↦ true | _ ↦ false ]

-- The names of the types in the macro file.
unfoldable pub type_name : Input → Text
type_name builtin = b'B' ∷ b'U' ∷ b'I' ∷ b'L' ∷ b'T' ∷ b'I' ∷ b'N' ∷ []
type_name environment =
    b'E' ∷ b'N' ∷ b'V' ∷ b'I' ∷ b'R' ∷ b'O' ∷ b'N' ∷ b'M' ∷ b'E' ∷ b'N' ∷ b'T' ∷ []
type_name fixed = b'F' ∷ b'I' ∷ b'X' ∷ b'E' ∷ b'D' ∷ []
type_name input = b'I' ∷ b'N' ∷ b'P' ∷ b'U' ∷ b'T' ∷ []
type_name input_once = b'I' ∷ b'N' ∷ b'P' ∷ b'U' ∷ b'T' ∷ b'-' ∷ b'O' ∷ b'N' ∷ b'C' ∷ b'E' ∷ []
type_name input_save = b'I' ∷ b'N' ∷ b'P' ∷ b'U' ∷ b'T' ∷ b'-' ∷ b'S' ∷ b'A' ∷ b'V' ∷ b'E' ∷ []
type_name process = b'P' ∷ b'R' ∷ b'O' ∷ b'C' ∷ b'E' ∷ b'S' ∷ b'S' ∷ []
type_name template = b'T' ∷ b'E' ∷ b'M' ∷ b'P' ∷ b'L' ∷ b'A' ∷ b'T' ∷ b'E' ∷ []

-- The tests of the constructor, in its order; an unknown name leaves the default.
unfoldable pub type_of_name : Text → Input
unfolding type_name
type_of_name t =
    if eq_text t (type_name builtin)
    then builtin
    else if eq_text t (type_name environment)
    then environment
    else if eq_text t (type_name fixed)
    then fixed
    else if eq_text t (type_name input)
    then input
    else if eq_text t (type_name input_save)
    then input_save
    else if eq_text t (type_name input_once)
    then input_once
    else if eq_text t (type_name process)
    then process
    else if eq_text t (type_name template)
    then template
    else input_save

-- The two constructors.
abbrev pub named : Text → Variable
named n = record {
  name = n;
  value = [];
  format = [];
  prefix = [];
  type = input_save;
  ask_for_input = true;
}

unfoldable pub of_node : Node → Variable
unfolding type_of_name
of_node node = record {
  name = value_of node.name_attribute;
  value = node.text;
  format = value_of node.format_attribute;
  prefix = value_of node.prefix_attribute;
  type = type_of_name (value_of node.type_attribute);
  ask_for_input = true;
}

-- Whether the value of the type is kept in the file.
unfoldable pub keeps_value : Input → Bool
keeps_value builtin = false
keeps_value input = false
keeps_value process = false
keeps_value _ = true

-- the first text, or the one that is given
abbrev pub given : Text → Option Text → Text
given t none = t
given t (some u) = u

abbrev pub or_else : Option Text → Text → Option Text
or_else (some t) u = some t
or_else none u = some u

-- save(node, value): the variable and the node behind the call.
unfoldable pub save : Option Text → Variable → Node → Variable × Node
unfolding keeps_value type_name
save value v node =
    let m_value = given v.value value in
    (
      record v { value = m_value },
      record {
        name_attribute = or_else node.name_attribute v.name;
        type_attribute = or_else node.type_attribute (type_name v.type);
        prefix_attribute =
            if is_empty v.prefix
            then node.prefix_attribute
            else or_else node.prefix_attribute v.prefix;
        format_attribute = node.format_attribute;
        text = if not (is_empty m_value) && keeps_value v.type then m_value else node.text;
      },
    )

unfoldable pub set_ask_for_input : Bool → Variable → Variable
unfolding is_input
set_ask_for_input value v =
    if not value
    then record v { ask_for_input = false }
    else if is_input v && not (is_once v)
    then record v { ask_for_input = true }
    else v
