-- ===== src/Base/Found.antt =====
-- As many rows are found as keys are asked for, when the keys are distinct and all there.
use Prim.Native.Nat.{◌+◌}
use mathlib.Core.Path.{◌≡◌, refl}
use mathlib.Core.Logic.{inl, inr}
use mathlib.Core.Bool.{true, false}
use mathlib.Core.List.{List, [], ◌∷◌}
use native.Mathlib.Omega.{arith}
use chat.Base.Tests.{Bool-cases}
use chat.Base.Lists.{length, select, All}
use chat.Base.Int.{ℤ, eq_ℤ, eq_ℤ_iff}
use chat.Base.Keys.{is_any, is_any_congr, Distinct, has_key, DistinctKeys, count_absent}

module _ {ℓ} {A : Type ℓ} (key : A → ℤ) where
  count_here :
      (z : ℤ) (xs : List A)
      → DistinctKeys key xs
      → has_key key z xs ≡ true
      → length (select (λ v. eq_ℤ (key v) z) xs) ≡ 1
  count_here z [] d h = cc
  count_here z (x ∷ xs) d h = elim (Bool-cases (eq_ℤ (key x) z)) [
    | inl same ↦
        let e : key x ≡ z = (eq_ℤ_iff (key x) z).0 same in
        rw same (ground (arith, count_absent key z xs (rw e at d.0)))
    | inr other ↦ rw other (count_here z xs d.1 (rw other at h))
  ]

  count_apart :
      (z : ℤ) (zs : List ℤ) (xs : List A)
      → is_any z zs ≡ false
      → length (select (λ v. is_any (key v) (z ∷ zs)) xs)
        ≡ length (select (λ v. eq_ℤ (key v) z) xs) + length (select (λ v. is_any (key v) zs) xs)
  count_apart z zs [] h = omega arith
  count_apart z zs (x ∷ xs) h = ground (arith, count_apart z zs xs h, is_any_congr (key x) z zs)

  count_nothing : (xs : List A) → length (select (λ v. is_any (key v) []) xs) ≡ 0
  count_nothing [] = refl
  count_nothing (x ∷ xs) = count_nothing xs

  pub count_exact :
      (zs : List ℤ) (xs : List A)
      → DistinctKeys key xs
      → All (λ z. has_key key z xs ≡ true) zs
      → Distinct zs
      → length (select (λ v. is_any (key v) zs) xs) ≡ length zs
  count_exact [] xs d h o = count_nothing xs
  count_exact (z ∷ zs) xs d h o =
      omega (arith, count_apart z zs xs o.0, count_here z xs d h.0, count_exact zs xs d h.1 o.1)
