-- ===== src/Strings/Splitting.antt =====
-- Laws of the splits at a separator, at the last separator and at an index.
use chat.Base.{
  ℕ, zero, suc, ◌≤◌, ◌<◌, ◌≡◌, ◌≢◌, refl, Text, none, some, [], ◌∷◌, ◌++◌, All, length, take, drop,
  arith, Option-cases, inl, inr,
}
use chat.Strings.{split, rsplit_once, split_at, strip_prefix}

abbrev pub Lacks : ℕ → Text → Type 0
Lacks d = All (λ c. c ≢ d)

abbrev pub IsAscii : Text → Type 0
IsAscii = All (λ c. c < 128)

-- A part with no separator is the whole split, or its first part.
pub split-part : (sep : ℕ) (p : Text) → Lacks sep p → split sep p ≡ p ∷ []
unfolding split
split-part sep [] h = refl
split-part sep (c ∷ p) h = ground (arith, split-part sep p h.1)

pub split-append : (sep : ℕ) (p s : Text) → Lacks sep p → split sep (p ++ sep ∷ s) ≡ p ∷ split sep s
unfolding split
split-append sep [] s h = ground arith
split-append sep (c ∷ p) s h = ground (arith, split-append sep p s h.1)

-- Without a separator there is no such split.
pub Lacks-of_rsplit_once : (sep : ℕ) (s : Text) → rsplit_once sep s ≡ none → Lacks sep s
unfolding rsplit_once
Lacks-of_rsplit_once sep [] e = tt
Lacks-of_rsplit_once sep (c ∷ s) e = ground (arith, Lacks-of_rsplit_once sep s)

-- Nothing behind the last separator holds one.
pub rsplit_once-Lacks :
    (sep : ℕ) (s : Text) {a b : Text} → rsplit_once sep s ≡ some (a, b) → Lacks sep b
unfolding rsplit_once
rsplit_once-Lacks sep [] e = cc
rsplit_once-Lacks sep (c ∷ s) {a} {b} e = elim (Option-cases (rsplit_once sep s)) [
  | inl miss ↦ ground (arith, Lacks-of_rsplit_once sep s miss)
  | inr ((x, y), hit) ↦ ground (arith, rsplit_once-Lacks sep s hit)
]

-- At an index within an ASCII text the split is there.
pub split_at_ascii :
    (n : ℕ) (s : Text) → n ≤ length s → IsAscii s → split_at n s ≡ some (take n s, drop n s)
unfolding split_at
split_at_ascii zero [] h k = refl
split_at_ascii zero (c ∷ s) h k = ground arith
split_at_ascii (suc n) [] h k = absurd (omega arith)
split_at_ascii (suc n) (c ∷ s) h k = rw (split_at_ascii n s (omega arith) k.1)

-- Whatever a split gives spells the text.
pub split_at-append :
    (n : ℕ) (s : Text) {a b : Text} → split_at n s ≡ some (a, b) → (a ++ b ≡ s) × (length a ≡ n)
unfolding split_at
split_at-append zero s {a} {b} e = ground arith
split_at-append (suc n) [] e = cc
split_at-append (suc n) (c ∷ s) {a} {b} e = elim (Option-cases (split_at n s)) [
  | inl miss ↦ ground arith
  | inr ((x, y), hit) ↦ ground (arith, split_at-append n s hit)
]

pub strip_prefix-append : (p s : Text) → strip_prefix p (p ++ s) ≡ some s
unfolding strip_prefix
strip_prefix-append [] s = refl
strip_prefix-append (c ∷ p) s = ground (arith, strip_prefix-append p s)
