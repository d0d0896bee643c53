-- ===== src/Strings.antt =====
-- What the program uses of Rust's text functions: `split`, `rsplit_once`, `split_at`,
-- `strip_prefix`, decimal u64 and `Path::join`.
pub mod Decimal
pub mod Splitting
pub mod Joining
use chat.Base.{
  ℕ, zero, suc, ◌+◌, ◌-◌, ◌*◌, ◌/◌, ◌%◌, ◌^◌, Text, Bool, true, false, ◌&&◌, ◌||◌, Option, none,
  some, List, [], ◌∷◌, ◌++◌, ltb, leb, ◌==◌, if◌then◌else◌,
}

-- puts a byte in front of the first part
abbrev pub cons_part : ℕ → List Text → List Text
cons_part c [] = (c ∷ []) ∷ []
cons_part c (p ∷ ps) = (c ∷ p) ∷ ps

-- `s.split(sep)` collected: one part more than there are separators
unfoldable pub split : ℕ → Text → List Text
split sep [] = [] ∷ []
split sep (c ∷ s) = let rest = split sep s in if c == sep then [] ∷ rest else cons_part c rest

-- `s.rsplit_once(sep)`: what stands before and behind the last separator
unfoldable pub rsplit_once : ℕ → Text → Option (Text × Text)
rsplit_once sep [] = none
rsplit_once sep (c ∷ s) = elim (rsplit_once sep s) [
  | none ↦ if c == sep then some ([], s) else none
  | some (a, b) ↦ some (c ∷ a, b)
]

-- not inside a character: at the end, or before a byte that begins one
abbrev is_boundary : Text → Bool
is_boundary [] = true
is_boundary (c ∷ s) = ltb c 128 || leb 192 c

-- `s.split_at(n)`; `none` is its panic, past the end or inside a character
unfoldable pub split_at : ℕ → Text → Option (Text × Text)
split_at zero s = if is_boundary s then some ([], s) else none
split_at (suc n) [] = none
split_at (suc n) (c ∷ s) = elim (split_at n s) [ none ↦ none | some (a, b) ↦ some (c ∷ a, b) ]

-- `s.strip_prefix(p)`
unfoldable pub strip_prefix : Text → Text → Option Text
strip_prefix [] s = some s
strip_prefix (c ∷ p) [] = none
strip_prefix (c ∷ p) (d ∷ s) = if c == d then strip_prefix p s else none

abbrev pub u64_max : ℕ
u64_max = 2 ^ 64 - 1

-- the digits that are left, behind the number read so far; `none` on another byte or an overflow
unfoldable pub scan : Text → ℕ → Option ℕ
scan [] n = some n
scan (c ∷ s) n =
    let m = n * 10 + (c - b'0') in
    if (leb b'0' c && leb c b'9') && leb m u64_max then scan s m else none

unfoldable pub scan_some : Text → Option ℕ
scan_some [] = none
scan_some (c ∷ s) = scan (c ∷ s) 0

-- `s.parse::<u64>()`: digits, which one `+` may precede
unfoldable pub parse_u64 : Text → Option ℕ
parse_u64 [] = none
parse_u64 (c ∷ s) = if c == b'+' then scan_some s else scan_some (c ∷ s)

-- The last digits of `n` in front of `out`; the fuel bounds the number of digits.
unfoldable pub emit : ℕ → ℕ → Text → Text
emit zero n out = out
emit (suc f) n out =
    let longer = emit f (n / 10) ((b'0' + n % 10) ∷ out) in
    if ltb n 10 then (b'0' + n) ∷ out else longer

-- `n.to_string()`: a number has no more digits than its own value plus one
unfoldable pub to_text : ℕ → Text
to_text n = emit (suc n) n []

-- the last byte of a non-empty text
abbrev pub ends_with : ℕ → Text → Bool
ends_with d [] = false
ends_with d (c ∷ []) = c == d
ends_with d (c ∷ e ∷ s) = ends_with d (e ∷ s)

abbrev pub starts_with : ℕ → Text → Bool
starts_with d [] = false
starts_with d (c ∷ s) = c == d

-- `base.join(p)`: an absolute path replaces the base
unfoldable pub join : Text → Text → Text
join [] p = p
join (b ∷ base) p =
    if starts_with b'/' p
    then p
    else if ends_with b'/' (b ∷ base)
    then b ∷ base ++ p
    else b ∷ base ++ b'/' ∷ p
