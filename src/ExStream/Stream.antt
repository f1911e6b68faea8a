-- ===== src/ExStream/Stream.antt =====
-- The part of std::fstream that class ex_stream (src/vi/ex-stream.cpp) uses to read: a get
-- position, the eof and fail bits and the last count, over the content of a file that is open and
-- not bad.
use wx_extension.Prelude.{
  ℕ, zero, suc, ◌+◌, ◌-◌, Bool, true, false, ◌||◌, [], ◌∷◌, Text, length, take, drop, ℤ, pos,
  negsuc, ltb, ◌==◌, newline, if◌then◌else◌,
}

pub record Input : Type 0 where
  pub at : ℕ
  pub eof : Bool
  pub fail : Bool
  pub count : ℕ

abbrev pub fresh : Input
fresh = record { at = 0; eof = false; fail = false; count = 0 }

unfoldable pub clear : Input → Input
clear i = record i { eof = false; fail = false }

unfoldable pub seekg : ℕ → Input → Input
seekg n i = if i.fail then record i { eof = false } else record i { at = n; eof = false }

unfoldable pub tellg : Input → ℤ
tellg i = if i.fail then negsuc 0 else pos i.at

-- How getline ended.
pub data Ending : Type 0 where
  at_eof at_newline at_limit : Ending

unfoldable pub read_line : ℕ → Text → Text × Ending
read_line limit [] = ([], at_eof)
read_line zero (c ∷ rest) = if c == newline then ([], at_newline) else ([], at_limit)
read_line (suc limit) (c ∷ rest) =
    let r = read_line limit rest in if c == newline then ([], at_newline) else (c ∷ r.0, r.1)

-- getline(s, n): the chars stored in s.
unfoldable pub getline : ℕ → Text → Input → Text × Input
unfolding read_line
getline n content i =
    if i.eof || i.fail
    then ([], record i { fail = true; count = 0 })
    else (let (chars, ending) = read_line (n - 1) (drop i.at content) in
        let k = length chars in
        (
          chars,
          elim ending [
            | at_newline ↦ record i { at = i.at + k + 1; count = k + 1 }
            | at_eof ↦ record { at = i.at + k; eof = true; fail = k == 0; count = k }
            | at_limit ↦ record i { at = i.at + k; fail = true; count = k }
          ],
        ))

-- read(s, n): the chars stored in s.
unfoldable pub read : ℕ → Text → Input → Text × Input
read n content i =
    if i.eof || i.fail
    then ([], record i { fail = true; count = 0 })
    else (let chars = take n (drop i.at content) in
        let k = length chars in
        let short = ltb k n in
        (chars, record { at = i.at + k; eof = short; fail = short; count = k }))

-- The state behind a loop of `get`, which left `unread`: at the end, or after a `break`.
unfoldable pub after_gets : Text → Text → Input → Input
after_gets content [] i = record { at = length content; eof = true; fail = true; count = 0 }
after_gets content (c ∷ unread) i = record i {
  at = length content - length (c ∷ unread);
  count = 1;
}
