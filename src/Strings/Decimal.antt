-- ===== src/Strings/Decimal.antt =====
-- Decimal print and parse of u64.
use mathlib.Core.List.{cons-ne-nil}
use chat.Base.{
  ℕ, zero, suc, ◌+◌, ◌/◌, ◌%◌, ◌≤◌, ◌<◌, ◌≡◌, ◌≢◌, refl, ◌∙◌, Text, some, [], ◌∷◌, All, arith,
}
use chat.Strings.{u64_max, scan, scan_some, parse_u64, emit, to_text}

abbrev pub IsDigit : ℕ → Type 0
IsDigit c = (b'0' ≤ c) × (c ≤ b'9')

scan_last : (n : ℕ) (out : Text) → n ≤ u64_max → scan ((b'0' + n % 10) ∷ out) (n / 10) ≡ scan out n
unfolding scan
scan_last n out h = ground arith

scan_small : (n : ℕ) (out : Text) → n < 10 → scan ((b'0' + n) ∷ out) 0 ≡ scan out n
unfolding scan
scan_small n out h = ground arith

scan-emit : (f n : ℕ) (out : Text) → n < f → n ≤ u64_max → scan (emit f n out) 0 ≡ scan out n
unfolding emit
scan-emit zero n out lt h = elim lt [ ]
scan-emit (suc f) n out lt h =
    ground (arith, scan-emit f (n / 10) ((b'0' + n % 10) ∷ out), scan_last n out, scan_small n out)

emit-All-IsDigit : (f n : ℕ) (out : Text) → All IsDigit out → All IsDigit (emit f n out)
unfolding emit
emit-All-IsDigit zero n out h = h
emit-All-IsDigit (suc f) n out h =
    ground (arith, emit-All-IsDigit f (n / 10) ((b'0' + n % 10) ∷ out))

-- The print has digits only.
pub to_text-All-IsDigit : (n : ℕ) → All IsDigit (to_text n)
unfolding to_text
to_text-All-IsDigit n = emit-All-IsDigit (suc n) n [] tt

emit-ne-nil : (f n : ℕ) (out : Text) → out ≢ [] → emit f n out ≢ []
unfolding emit
emit-ne-nil zero n out h = h
emit-ne-nil (suc f) n out h =
    ground (arith, emit-ne-nil f (n / 10) _ (cons-ne-nil (b'0' + n % 10) out))

pub to_text-ne-nil : (n : ℕ) → to_text n ≢ []
unfolding to_text emit
to_text-ne-nil n = ground (arith, emit-ne-nil n (n / 10) _ (cons-ne-nil (b'0' + n % 10) []))

parse_u64_of_digits : (s : Text) → s ≢ [] → All IsDigit s → parse_u64 s ≡ scan s 0
unfolding parse_u64 scan_some
parse_u64_of_digits [] h _ = absurd (h refl)
parse_u64_of_digits (c ∷ s) _ d = ground arith

scan-to_text : (n : ℕ) → n ≤ u64_max → scan (to_text n) 0 ≡ some n
unfolding to_text scan
scan-to_text n h = scan-emit (suc n) n [] (omega arith) h

-- Every u64 is read back from its decimal print.
pub parse_u64-to_text : (n : ℕ) → n ≤ u64_max → parse_u64 (to_text n) ≡ some n
parse_u64-to_text n h =
    parse_u64_of_digits (to_text n) (to_text-ne-nil n) (to_text-All-IsDigit n) ∙ scan-to_text n h
