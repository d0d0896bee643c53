-- ===== src/Base/Keys.antt =====
-- Rows with an integer key: distinct keys, keys that are there, and the counting argument that
-- as many rows as keys asked for means that the keys are distinct and all there.
use Prim.Native.Nat.{◌+◌, ◌≤◌}
use mathlib.Core.Path.{◌≡◌, refl}
use mathlib.Core.Logic.{inl, inr}
use mathlib.Core.Bool.{Bool, true, false}
use mathlib.Core.List.{List, [], ◌∷◌, ◌++◌}
use native.Mathlib.Omega.{arith}
use chat.Base.Tests.{if◌then◌else◌, Bool-cases}
use chat.Base.Lists.{length, select, any, All}
use chat.Base.Int.{ℤ, eq_ℤ, eq_ℤ_iff}

-- `x = ANY(list)`
abbrev pub is_any : ℤ → List ℤ → Bool
is_any z [] = false
is_any z (y ∷ ys) = if eq_ℤ z y then true else is_any z ys

-- no integer twice
abbrev pub Distinct : List ℤ → Type 0
Distinct [] = Unit
Distinct (z ∷ zs) = (is_any z zs ≡ false) × Distinct zs

pub eq_ℤ-refl : (z : ℤ) → eq_ℤ z z ≡ true
eq_ℤ-refl z = (eq_ℤ_iff z z).1 refl

pub is_any_congr : (x y : ℤ) (zs : List ℤ) → eq_ℤ x y ≡ true → is_any x zs ≡ is_any y zs
is_any_congr x y zs h = rw ((eq_ℤ_iff x y).0 h)

module _ {ℓ} {A : Type ℓ} (key : A → ℤ) where
  -- a row with that key is there
  abbrev pub has_key : ℤ → List A → Bool
  has_key z = any (λ v. eq_ℤ (key v) z)

  -- no key twice
  abbrev pub DistinctKeys : List A → Type 0
  DistinctKeys [] = Unit
  DistinctKeys (x ∷ xs) = (has_key (key x) xs ≡ false) × DistinctKeys xs

  pub has_key-append : (z : ℤ) (xs ys : List A) → has_key z xs ≡ true → has_key z (xs ++ ys) ≡ true
  has_key-append z [] ys h = cc
  has_key-append z (x ∷ xs) ys h = ground (arith, has_key-append z xs ys)

  pub has_key-snoc : (x : A) (xs : List A) → has_key (key x) (xs ++ x ∷ []) ≡ true
  has_key-snoc x [] = ground (arith, eq_ℤ-refl (key x))
  has_key-snoc x (y ∷ xs) = ground (arith, has_key-snoc x xs)

  pub has_key-append_false :
      (z : ℤ) (x : A) (xs : List A)
      → has_key z xs ≡ false
      → eq_ℤ (key x) z ≡ false
      → has_key z (xs ++ x ∷ []) ≡ false
  has_key-append_false z x [] h e = ground arith
  has_key-append_false z x (y ∷ xs) h e = ground (arith, has_key-append_false z x xs)

  pub DistinctKeys-snoc :
      (x : A) (xs : List A)
      → DistinctKeys xs
      → has_key (key x) xs ≡ false
      → DistinctKeys (xs ++ x ∷ [])
  DistinctKeys-snoc x [] d h = (refl, tt)
  DistinctKeys-snoc x (y ∷ xs) d h = ground (
    arith,
    DistinctKeys-snoc x xs d.1,
    has_key-append_false (key y) x xs d.0,
    eq_ℤ_iff (key x) (key y),
    eq_ℤ_iff (key y) (key x),
  )

  has_key-select :
      (z : ℤ) (p : A → Bool) (xs : List A) → has_key z xs ≡ false → has_key z (select p xs) ≡ false
  has_key-select z p [] h = refl
  has_key-select z p (x ∷ xs) h = ground (arith, has_key-select z p xs)

  pub DistinctKeys-select :
      (p : A → Bool) (xs : List A) → DistinctKeys xs → DistinctKeys (select p xs)
  DistinctKeys-select p [] d = tt
  DistinctKeys-select p (x ∷ xs) d =
      ground (arith, DistinctKeys-select p xs d.1, has_key-select (key x) p xs d.0)

  pub count_absent :
      (z : ℤ) (xs : List A) → has_key z xs ≡ false → length (select (λ v. eq_ℤ (key v) z) xs) ≡ 0
  count_absent z [] h = refl
  count_absent z (x ∷ xs) h = ground (arith, count_absent z xs)

  pub count_one :
      (z : ℤ) (xs : List A) → DistinctKeys xs → length (select (λ v. eq_ℤ (key v) z) xs) ≤ 1
  count_one z [] d = omega arith
  count_one z (x ∷ xs) d = elim (Bool-cases (eq_ℤ (key x) z)) [
    | inl same ↦
        let e : key x ≡ z = (eq_ℤ_iff (key x) z).0 same in
        rw same (ground (arith, count_absent z xs (rw e at d.0)))
    | inr other ↦ rw other (count_one z xs d.1)
  ]

  count_either :
      (z : ℤ) (zs : List ℤ) (xs : List A)
      → length (select (λ v. is_any (key v) (z ∷ zs)) xs)
        ≤ length (select (λ v. eq_ℤ (key v) z) xs) + length (select (λ v. is_any (key v) zs) xs)
  count_either z zs [] = omega arith
  count_either z zs (x ∷ xs) = ground (arith, count_either z zs xs)

  count_again :
      (z : ℤ) (zs : List ℤ) (xs : List A)
      → is_any z zs ≡ true
      → length (select (λ v. is_any (key v) (z ∷ zs)) xs)
        ≡ length (select (λ v. is_any (key v) zs) xs)
  count_again z zs [] h = refl
  count_again z zs (x ∷ xs) h = ground (arith, count_again z zs xs h, is_any_congr (key x) z zs)

  -- No more rows are found than keys are asked for.
  pub count_le :
      (zs : List ℤ) (xs : List A)
      → DistinctKeys xs
      → length (select (λ v. is_any (key v) zs) xs) ≤ length zs
  count_le [] [] d = omega arith
  count_le [] (x ∷ xs) d = count_le [] xs d.1
  count_le (z ∷ zs) xs d = omega (arith, count_either z zs xs, count_one z xs d, count_le zs xs d)

  -- As many rows as keys: then every key is there, and no key was asked for twice.
  pub count_full :
      (zs : List ℤ) (xs : List A)
      → DistinctKeys xs
      → length (select (λ v. is_any (key v) zs) xs) ≡ length zs
      → All (λ z. has_key z xs ≡ true) zs × Distinct zs
  count_full [] xs d e = (tt, tt)
  count_full (z ∷ zs) xs d e = ground (
    arith,
    count_full zs xs d,
    count_either z zs xs,
    count_one z xs d,
    count_absent z xs,
    count_le zs xs d,
    count_again z zs xs,
  )
