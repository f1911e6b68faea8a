-- ===== src/Macros/Variable/Laws.antt =====
-- A variable that is saved and read again (src/vi/variable.cpp).
use wx_extension.Prelude.{
  Bool, true, false, not, Option, none, some, [], ◌∷◌, Text, ◌&&◌, if◌then◌else◌, eq_text, ◌≡◌,
  refl, arith,
}
use wx_extension.Core.Text.{is_empty}
use wx_extension.Macros.Variable.{
  Input, Variable, Node, builtin, environment, fixed, input, input_once, input_save, process,
  template, type_name, type_of_name, of_node, save, keeps_value, value_of, given, or_else,
}

type_of_name-type_name : (i : Input) → type_of_name (type_name i) ≡ i
unfolding type_of_name type_name eq_text
type_of_name-type_name builtin = refl
type_of_name-type_name environment = refl
type_of_name-type_name fixed = refl
type_of_name-type_name input = refl
type_of_name-type_name input_once = refl
type_of_name-type_name input_save = refl
type_of_name-type_name process = refl
type_of_name-type_name template = refl

-- A node without attributes and text, as it is appended for a new variable.
abbrev pub new_node : Node
new_node = record {
  name_attribute = none;
  type_attribute = none;
  prefix_attribute = none;
  format_attribute = none;
  text = [];
}

-- What a variable is after it is saved and the file is read: its value is kept for the types that
-- keep one, its format is lost, and it asks for input.
abbrev pub reread : Variable → Variable
reread v = record v {
  value = if keeps_value v.type then v.value else [];
  format = [];
  ask_for_input = true;
}

value_of-new : (p : Text) → value_of (if is_empty p then none else some p) ≡ p
value_of-new [] = refl
value_of-new (c ∷ p) = refl

value_of-again :
    (p : Text)
    → value_of (
        if is_empty p
        then (if is_empty p then none else some p)
        else or_else (if is_empty p then none else some p) p)
      ≡ p
value_of-again [] = refl
value_of-again (c ∷ p) = refl

text-kept :
    (k : Bool) (t : Text) → (if not (is_empty t) && k then t else []) ≡ (if k then t else [])
text-kept true [] = refl
text-kept false [] = refl
text-kept true (c ∷ t) = refl
text-kept false (c ∷ t) = refl

text-again :
    (k : Bool) (t w : Text)
    → is_empty w ≡ false
    → (if not (is_empty w) && k then w else (if not (is_empty t) && k then t else []))
      ≡ (if k then w else [])
text-again true t w h = ground arith
text-again false t w h = ground arith

-- A variable that is saved to a new node, with a new value or its own, and read from that node has
-- its name, type and prefix, the new value if its type keeps one in the file, and no format. Saved
-- again with any value that is not empty to the node of the first time, it is read with the second
-- value if its type keeps one.
pub of_node-save :
    (v : Variable) (value : Option Text) (w : Text)
    → is_empty w ≡ false
    → let (v', node) = save value v new_node in
      (of_node node ≡ reread v')
      × (of_node (save (some w) v' node).1 ≡ reread (record v' { value = w }))
unfolding of_node save
of_node-save v value w h = (
  simp (
    value_of-new v.prefix,
    type_of_name-type_name v.type,
    text-kept (keeps_value v.type) (given v.value value),
  ),
  simp (
    value_of-again v.prefix,
    type_of_name-type_name v.type,
    text-again (keeps_value v.type) (given v.value value) w h,
  ),
)
