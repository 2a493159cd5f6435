-- ===== src/Prelude/Text.antt =====
-- Rust's `str`, as the list of its code points, with the operations of the standard library that
-- the program uses. A literal of the source is `codes "…"`.
use Prim.Native.Char.{code}
use hekate.Prelude.{
  ℕ, ◌+◌, String, Bool, ◌||◌, ◌&&◌, List, [], ◌∷◌, ◌++◌, ltb, leb, nat_eq, is_empty, if◌then◌else◌,
}

abbrev pub Text : Type 0
Text = List ℕ

abbrev pub codes : String → Text
codes String.[] = []
codes (String.◌∷◌ c s) = code c ∷ codes s

-- `char::is_whitespace`: the code points with Unicode's White_Space property.
unfoldable pub is_whitespace : ℕ → Bool
is_whitespace c =
    leb 9 c && leb c 13
    || nat_eq c 32
    || nat_eq c 0x85
    || nat_eq c 0xa0
    || nat_eq c 0x1680
    || leb 0x2000 c && leb c 0x200a
    || nat_eq c 0x2028
    || nat_eq c 0x2029
    || nat_eq c 0x202f
    || nat_eq c 0x205f
    || nat_eq c 0x3000

unfoldable pub trim_start : Text → Text
unfolding is_whitespace
trim_start [] = []
trim_start (c ∷ s) = let rest = trim_start s in if is_whitespace c then rest else c ∷ s

-- Drops the white space at the end: a character stays if one behind it stays.
unfoldable pub trim_end : Text → Text
unfolding is_whitespace
trim_end [] = []
trim_end (c ∷ s) =
    let rest = trim_end s in if is_empty rest && is_whitespace c then [] else c ∷ rest

-- `str::trim`
unfoldable pub trim : Text → Text
unfolding trim_start trim_end
trim s = trim_end (trim_start s)

-- `str::split_whitespace`, with the word that is being read: an empty word is dropped.
unfoldable pub split_whitespace_from : Text → Text → List Text
unfolding is_whitespace
split_whitespace_from [] [] = []
split_whitespace_from (w ∷ ws) [] = (w ∷ ws) ∷ []
split_whitespace_from word (c ∷ s) =
    let next = split_whitespace_from (word ++ c ∷ []) s in
    let rest = split_whitespace_from [] s in
    if is_whitespace c then (if is_empty word then rest else word ∷ rest) else next

unfoldable pub split_whitespace : Text → List Text
unfolding split_whitespace_from
split_whitespace s = split_whitespace_from [] s

-- `[T]::join`
unfoldable pub join : Text → List Text → Text
join sep [] = []
join sep (w ∷ []) = w
join sep (w ∷ v ∷ ws) = w ++ sep ++ join sep (v ∷ ws)

-- The bytes that UTF-8 takes for one code point.
unfoldable pub utf8_width : ℕ → ℕ
utf8_width c = if ltb c 0x80 then 1 else if ltb c 0x800 then 2 else if ltb c 0x10000 then 3 else 4

-- `str::len`, which counts bytes.
unfoldable pub len : Text → ℕ
unfolding utf8_width
len [] = 0
len (c ∷ s) = utf8_width c + len s
