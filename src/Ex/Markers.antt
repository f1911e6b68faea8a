-- ===== src/Ex/Markers.antt =====
-- The markers of a visual component (src/vi/ex.cpp: marker_add, marker_delete, marker_goto,
-- marker_line). The markers of the component are a parameter; those of a stream are in ExStream.
pub mod Laws
use wx_extension.Prelude.{
  ℕ, ◌+◌, Bool, true, false, Option, none, some, [], ◌∷◌, Text, if◌then◌else◌, ◌==◌, length,
  Entries, lookup, put, remove,
}

-- define: MarkerDefine of a number for a char. add: MarkerAdd at a line with a number, with the
-- handle, `none` for -1. line: MarkerLineFromHandle, `none` for -1. symbol: the number of
-- m_marker_symbol, and whether it is shown as a char, `none` if the lexers have no such marker.
pub record Component (E : Type 0) : Type 0 where
  pub symbol : E → Option (ℕ × Bool)
  pub define : ℕ → ℕ → E → E
  pub add : ℕ → ℕ → E → Option ℕ × E
  pub delete : ℕ → E → E
  pub line : ℕ → E → Option ℕ
  pub current_line : E → ℕ
  pub selection : E → Option (ℕ × ℕ)
  pub go_to : ℕ → E → E

-- m_marker_identifiers and m_marker_numbers, with the component, and m_copy.
pub record Markers (E : Type 0) : Type 0 where
  pub identifiers : Entries ℕ
  pub numbers : Entries ℕ
  pub component : E
  pub is_copy : Bool

abbrev pub key : ℕ → Text
key m = m ∷ []

abbrev pub marker_offset : ℕ
marker_offset = 3

module _ {E : Type 0} (x : Component E) where
  unfoldable pub visual_marker_delete : ℕ → Markers E → Markers E × Bool
  visual_marker_delete m s = elim (lookup (key m) s.identifiers) [
    | some id ↦ (
      record s { identifiers = remove (key m) s.identifiers; component = x.delete id s.component },
      true,
    )
    | none ↦ (s, false)
  ]

  -- The number of the symbol of a marker, which is defined the first time.
  unfoldable pub marker_number : ℕ → Markers E → ℕ × Markers E
  marker_number m s = elim (lookup (key m) s.numbers) [
    | some n ↦ (n, s)
    | none ↦
        let n = length s.identifiers + marker_offset in
        (n, record s { numbers = put (key m) n s.numbers; component = x.define n m s.component })
  ]

  -- marker_add(marker, line), where `none` is the current line
  unfoldable pub visual_marker_add : ℕ → Option ℕ → Markers E → Markers E × Bool
  unfolding visual_marker_delete marker_number
  visual_marker_add m line s = if s.is_copy then (s, false) else elim (x.symbol s.component) [
    | none ↦ (s, false)
    | some (number, is_char) ↦
        let s1 = (visual_marker_delete m s).0 in
        let l = elim line as (λ _. ℕ) [ some k ↦ k | none ↦ x.current_line s1.component ] in
        let r = if is_char then marker_number m s1 else (number, s1) in
        let a = x.add l r.0 r.1.component in
        elim a.0 [
          | none ↦ (record r.1 { component = a.1 }, false)
          | some id ↦
              (record r.1 { identifiers = put (key m) id r.1.identifiers; component = a.1 }, true)
        ]
  ]

  -- `none` is LINE_NUMBER_UNKNOWN
  unfoldable pub visual_marker_line : ℕ → Markers E → Option ℕ
  visual_marker_line m s =
      if m == b'<'
      then elim (x.selection s.component) [ none ↦ none | some (b, e) ↦ some b ]
      else if m == b'>'
      then elim (x.selection s.component) [ none ↦ none | some (b, e) ↦ some e ]
      else elim (lookup (key m) s.identifiers) [ none ↦ none | some id ↦ x.line id s.component ]

  unfoldable pub marker_goto : ℕ → Markers E → Markers E × Bool
  unfolding visual_marker_line
  marker_goto m s = elim (visual_marker_line m s) [
    | some l ↦ (record s { component = x.go_to (l + 1) s.component }, true)
    | none ↦ (s, false)
  ]
