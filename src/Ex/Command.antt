-- ===== src/Ex/Command.antt =====
-- Running an ex command (src/vi/ex.cpp: command, command_handle, command_address, get_command_arg).
-- `W` is all that a command may read and change. The handlers of the commands, the frame, and the
-- addresses are parameters; so is address_parse, which is regular expressions.
pub mod Laws
use wx_extension.Prelude.{
  Bool, true, false, not, ◌&&◌, ◌||◌, Option, none, some, List, [], ◌∷◌, Text, if◌then◌else◌, ◌==◌,
  eq_text, Entries, lookup, drop, ℤ, ltb_ℤ, pos,
}
use wx_extension.Core.Text.{after}
use wx_extension.Prelude.{is_prefix}

-- The names of m_commands, in order.
abbrev pub commands : List Text
commands =
    (b':' ∷ b'a' ∷ b'b' ∷ [])
    ∷ (b':' ∷ b'a' ∷ b'r' ∷ [])
    ∷ (b':' ∷ b'c' ∷ b'h' ∷ b'd' ∷ [])
    ∷ (b':' ∷ b'c' ∷ b'l' ∷ b'o' ∷ b's' ∷ b'e' ∷ [])
    ∷ (b':' ∷ b'd' ∷ b'e' ∷ [])
    ∷ (b':' ∷ b'e' ∷ [])
    ∷ (b':' ∷ b'f' ∷ [])
    ∷ (b':' ∷ b'g' ∷ b'r' ∷ b'e' ∷ b'p' ∷ [])
    ∷ (b':' ∷ b'g' ∷ b't' ∷ [])
    ∷ (b':' ∷ b'h' ∷ b'e' ∷ b'l' ∷ b'p' ∷ [])
    ∷ (b':' ∷ b'm' ∷ b'a' ∷ b'p' ∷ [])
    ∷ (b':' ∷ b'n' ∷ b'e' ∷ b'w' ∷ [])
    ∷ (b':' ∷ b'p' ∷ b'r' ∷ b'i' ∷ b'n' ∷ b't' ∷ [])
    ∷ (b':' ∷ b'p' ∷ b'w' ∷ b'd' ∷ [])
    ∷ (b':' ∷ b'q' ∷ b'!' ∷ [])
    ∷ (b':' ∷ b'q' ∷ [])
    ∷ (b':' ∷ b'r' ∷ b'e' ∷ b'g' ∷ [])
    ∷ (b':' ∷ b's' ∷ b'e' ∷ b'd' ∷ [])
    ∷ (b':' ∷ b's' ∷ b'e' ∷ b't' ∷ [])
    ∷ (b':' ∷ b's' ∷ b'o' ∷ [])
    ∷ (b':' ∷ b's' ∷ b'y' ∷ b'n' ∷ b't' ∷ b'a' ∷ b'x' ∷ [])
    ∷ (b':' ∷ b't' ∷ b'a' ∷ [])
    ∷ (b':' ∷ b'u' ∷ b'n' ∷ b'a' ∷ [])
    ∷ (b':' ∷ b'u' ∷ b'n' ∷ b'm' ∷ [])
    ∷ (b':' ∷ b'v' ∷ b'e' ∷ [])
    ∷ (b':' ∷ b'x' ∷ [])
    ∷ []

pub data AddressType : Type 0 where
  no_address one_address range_address : AddressType

-- What address_parse sets.
pub record Parsed : Type 0 where
  pub type : AddressType
  pub range : Text
  pub cmd : Text
  pub rest : Text

-- parse: `none` where address_parse returns false. parse_range gives whether there is a message.
pub record Host (W : Type 0) : Type 0 where
  pub is_off : W → Bool
  pub map_of : W → Entries Text
  pub exec_ex_command : Text → W → W × Bool
  pub show_ex_command : Text → W → W × Bool
  pub handler : Text → Text → W → W × Bool
  pub parse : Text → W → W × Option Parsed
  pub parse_one : Parsed → W → W × Bool
  pub parse_range : Parsed → W → (W × Bool) × Bool
  pub info_message : W → W
  pub record_command : Text → W → W
  pub clear_command : W → W
  pub auto_write : W → W

-- The first name that the command starts with.
unfoldable pub find_command : List Text → Text → Option Text
find_command [] t = none
find_command (n ∷ ns) t = if is_prefix n t then some n else find_command ns t

abbrev pub is_shown : Text → Bool
is_shown t =
    eq_text t (b':' ∷ [])
    || (eq_text t (b':' ∷ 39 ∷ b'<' ∷ b',' ∷ 39 ∷ b'>' ∷ []) || eq_text t (b':' ∷ b'!' ∷ []))

module _ {W : Type 0} where
  unfoldable pub command_handle : Host W → Text → W → W × Bool
  unfolding find_command
  command_handle x t w = elim (find_command commands t) [
    | some n ↦ x.handler n t w
    | none ↦ (w, false)
  ]

  unfoldable pub command_address : Host W → Text → W → W × Bool
  command_address x t w =
      let r = x.parse t w in
      elim r.1 [
        | none ↦ (r.0, false)
        | some p ↦ elim p.type [
          | no_address ↦ (r.0, true)
          | one_address ↦ x.parse_one p r.0
          | range_address ↦
              let q = x.parse_range p r.0 in
              if q.0.1 && q.1 then (x.info_message q.0.0, true) else q.0
        ]
      ]

  -- A command that the map replaces is run in its place.
  unfoldable pub mapped : Host W → Text → W → Text
  mapped x t w = elim (lookup t (x.map_of w)) [ some u ↦ u | none ↦ t ]

  -- Recorded, and then written if that is asked for.
  abbrev pub succeed : Host W → Text → W → W × Bool
  succeed x t w = (x.auto_write (x.clear_command (x.record_command t w)), true)

  unfoldable pub run_command : Host W → Text → W → W × Bool
  unfolding mapped command_handle command_address
  run_command x [] w = (w, false)
  run_command x (c ∷ t) w =
      if x.is_off w || not (c == b':')
      then (w, false)
      else (let u = mapped x (c ∷ t) w in
          let frame = x.exec_ex_command u w in
          let handled = command_handle x u frame.0 in
          let addressed = command_address x (drop 1 u) handled.0 in
          if frame.1
          then succeed x u frame.0
          else if is_shown u
          then x.show_ex_command u frame.0
          else if handled.1
          then succeed x u handled.0
          else if addressed.1
          then succeed x u addressed.0
          else (x.clear_command addressed.0, false))

pub data CommandArg : Type 0 where
  int_arg no_arg other_arg : CommandArg

-- stoi: `none` for an exception
unfoldable pub get_command_arg : (Text → Option ℤ) → Text → CommandArg
get_command_arg stoi t =
    let post = after t 32 true in
    if eq_text post t then no_arg else elim (stoi post) [
      | some n ↦ if ltb_ℤ (pos 0) n then int_arg else other_arg
      | none ↦ other_arg
    ]
