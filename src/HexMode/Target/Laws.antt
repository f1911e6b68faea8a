-- ===== src/HexMode/Target/Laws.antt =====
-- What the commands on a position or a target leave in the buffer (src/stc/hexmode.cpp:
-- highlight_other, replace_target).
use wx_extension.Prelude.{
  ℕ, suc, ◌+◌, ◌*◌, ◌<◌, ◌≤◌, ◌≡◌, ◌≢◌, true, false, some, List, [], ◌∷◌, ◌++◌, Text, length, set,
  arith, sym, ap, ◌∙◌, space, Option-cases, inl, inr, length-set,
}
use wx_extension.HexMode.Layout.{Hex, each_hex_field}
use wx_extension.HexMode.Fields.{HexLine, other_field, buffer_index, is_readonly, char_at}
use wx_extension.HexMode.Fields.Laws.{buffer_index-other_field}
use wx_extension.HexMode.Buffer.{HexState, Effect, brace_highlight, set_target_end}
use wx_extension.HexMode.Edit.{digit, replace_code, put_byte}
use wx_extension.HexMode.Edit.Replace.{stoi_byte-code}
use wx_extension.HexMode.Target.{
  View, line_at, highlight_at, put_codes, is_target, erase_rest, replace_target,
}

-- Where highlight_other of a position returns true, the buffer stays, and the component is told to
-- highlight the position and a column of its line that, if its char is not blank, stands for the
-- same byte of the buffer.
pub highlight_at-same_byte :
    (h : Hex) (v : View) (p : ℕ) (s : HexState)
    → (highlight_at h v p s).0 ≡ true
    → (c : ℕ) × ((highlight_at h v p s).1.effects
        ≡ s.effects
          ++ brace_highlight
              (some (p, (v.component).position_from_line ((v.component).line_from_position p) + c))
            ∷ [])
      × ((highlight_at h v p s).1.buffer ≡ s.buffer)
      × (char_at h c (line_at h v p) ≢ space
          → buffer_index h (record (line_at h v p) { column_no = c })
            ≡ buffer_index h (line_at h v p))
unfolding highlight_at
highlight_at-same_byte h v p s e = elim (Option-cases (other_field h (line_at h v p))) [
  | inl q ↦ absurd (ground arith)
  | inr (c, q) ↦ (c, ground arith, ground arith, buffer_index-other_field h (line_at h v p) c q)
]

-- The bytes of codes of two digits.
abbrev pub Codes : Text → Text → Type 0
Codes [] [] = Unit
Codes (c ∷ d ∷ t) (byte ∷ bytes) =
    (m : ℕ) × (n : ℕ) × (digit c ≡ some m)
    × (digit d ≡ some n)
    × (byte ≡ m * 16 + n)
    × Codes t bytes
Codes _ _ = ⊥

-- The bytes put over those from `index` on.
abbrev pub put_over : ℕ → Text → Text → Text
put_over index [] b = b
put_over index (byte ∷ bytes) b = put_over (index + 1) bytes (set b index byte)

replace_code-set :
    (h : Hex) (c d m n index : ℕ) (l : HexLine) (s : HexState)
    → digit c ≡ some m
    → digit d ≡ some n
    → buffer_index h l ≡ some index
    → is_readonly h l ≡ false
    → index < length s.buffer
    → replace_code h c d false l s ≡ some (record s { buffer = set s.buffer index (m * 16 + n) })
unfolding replace_code put_byte
replace_code-set h c d m n index l s hc hd b r i = ground (arith, stoi_byte-code c d m n hc hd)

each_hex_field-suc : (k : ℕ) → each_hex_field * suc k ≡ each_hex_field * k + each_hex_field
each_hex_field-suc k = omega arith

module _ (h : Hex) (view : List Effect → View) (es : List Effect) (first base stop : ℕ) where
  -- While the component is told nothing, its lines show the byte `base` at the position `first`,
  -- and the next ones each three columns on, up to the end of the target.
  abbrev pub ShowsBytes : Type 0
  ShowsBytes =
      ((view es).target_end ≡ some stop)
      × ((k : ℕ)
          → first + each_hex_field * k ≤ stop
          → (buffer_index h (line_at h (view es) (first + each_hex_field * k)) ≡ some (base + k))
            × (is_readonly h (line_at h (view es) (first + each_hex_field * k)) ≡ false))

  put_codes-step :
      (c d m n k : ℕ) (t : Text) (s : HexState)
      → ShowsBytes
      → s.effects ≡ es
      → digit c ≡ some m
      → digit d ≡ some n
      → first + each_hex_field * k ≤ stop
      → base + k < length s.buffer
      → put_codes h view false (c ∷ d ∷ t) (first + each_hex_field * k) s
        ≡ put_codes h view false t
            (first + each_hex_field * suc k)
            (record s { buffer = set s.buffer (base + k) (m * 16 + n) })
  unfolding put_codes
  put_codes-step c d m n k t s (e, shows) q hc hd f b =
      let (i, r) = shows k f in
      rw q (
        ground (
          arith,
          replace_code-set h c d m n (base + k) (line_at h (view es) (first + each_hex_field * k)) s
              hc hd i r b,
          each_hex_field-suc k,
        ))

  put_codes-over :
      (t bytes : Text) (k : ℕ) (s : HexState)
      → ShowsBytes
      → s.effects ≡ es
      → Codes t bytes
      → first + each_hex_field * (k + length bytes) ≤ stop + each_hex_field
      → base + k + length bytes ≤ length s.buffer
      → put_codes h view false t (first + each_hex_field * k) s
        ≡ some (
          first + each_hex_field * (k + length bytes),
          record s { buffer = put_over (base + k) bytes s.buffer },
        )
  put_codes-over [] [] k s shows q codes f b =
      unfold put_codes in ap (λ n. some (first + each_hex_field * n, s)) (omega arith)
  put_codes-over [] (x ∷ bytes) k s shows q codes f b = elim codes [ ]
  put_codes-over (c ∷ []) [] k s shows q codes f b = elim codes [ ]
  put_codes-over (c ∷ []) (x ∷ bytes) k s shows q codes f b = elim codes [ ]
  put_codes-over (c ∷ d ∷ t) [] k s shows q codes f b = elim codes [ ]
  put_codes-over (c ∷ d ∷ t) (byte ∷ bytes) k s shows q (m, n, hc, hd, e, codes) f b =
      let next : HexState = record s { buffer = set s.buffer (base + k) (m * 16 + n) } in
      put_codes-step c d m n k t s shows q hc hd (omega arith) (omega arith)
      ∙ put_codes-over t bytes (suc k) next shows q codes (omega arith)
          (omega (arith, length-set s.buffer (base + k) (m * 16 + n)))
      ∙ (λ i.
          let count : suc k + length bytes ≡ k + suc (length bytes) = omega arith in
          let index : base + suc k ≡ base + k + 1 = omega arith in
          some (
            first + each_hex_field * count i,
            record s { buffer = put_over (index i) bytes (set s.buffer (base + k) (sym e i)) },
          ))

  put_codes-first :
      (t bytes : Text) (s : HexState)
      → ShowsBytes
      → s.effects ≡ es
      → Codes t bytes
      → first + each_hex_field * length bytes ≤ stop + each_hex_field
      → base + length bytes ≤ length s.buffer
      → put_codes h view false t first s
        ≡ some (
          first + each_hex_field * length bytes,
          record s { buffer = put_over base bytes s.buffer },
        )
  put_codes-first t bytes s shows q codes f b =
      let start : first ≡ first + each_hex_field * 0 = omega arith in
      ap (λ n. put_codes h view false t n s) start
      ∙ put_codes-over t bytes 0 s shows q codes (omega arith) (omega arith)
      ∙ (λ i.
          let count : 0 + length bytes ≡ length bytes = omega arith in
          let index : base + 0 ≡ base = omega arith in
          some (
            first + each_hex_field * count i,
            record s { buffer = put_over (index i) bytes s.buffer },
          ))

  erase_rest-none :
      (start : ℕ) (s : HexState)
      → (view es).target_end ≡ some stop
      → s.effects ≡ es
      → stop ≤ start
      → erase_rest h view false start s ≡ some s
  unfolding erase_rest
  erase_rest-none start s e q g = rw q (ground arith)

  -- For a target that starts at `first`, ends at `stop`, and is replaced by a text of upper case
  -- hex codes without showing it, where the codes reach from the byte at `first` to the end of the
  -- target, and no farther than the byte at that end: the replacement succeeds, the bytes of the
  -- codes stand over those of the buffer from the byte at `first` on, and the end of the target is
  -- set.
  pub replace_target-over :
      (t bytes : Text) (s : HexState)
      → ShowsBytes
      → s.effects ≡ es
      → is_target h (view es) t ≡ true
      → (view es).target_start ≡ some first
      → Codes t bytes
      → first + each_hex_field * length bytes ≤ stop + each_hex_field
      → stop ≤ first + each_hex_field * length bytes
      → base + length bytes ≤ length s.buffer
      → replace_target h view t false s
        ≡ some (
          true,
          record s {
            buffer = put_over base bytes s.buffer;
            effects = es ++ set_target_end (first + length t * each_hex_field) ∷ [];
          },
        )
  unfolding replace_target
  replace_target-over t bytes s shows q target start codes f g b =
      let s₁ : HexState = record s { buffer = put_over base bytes s.buffer } in
      ground (
        arith,
        ap view q,
        put_codes-first t bytes s shows q codes f b,
        erase_rest-none (first + each_hex_field * length bytes) s₁ shows.0 q g,
      )
