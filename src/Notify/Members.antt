-- ===== src/Notify/Members.antt =====
-- The members of the sets of Notify/Sets.
use chat.Base.{
  ℕ, ◌≡◌, refl, ap, ◌∙◌, Bool, true, false, ◌||◌, List, [], ◌∷◌, ◌==◌, arith, all, Bool-cases, inl,
  inr,
}
use chat.Notify.Sets.{contains, insert, collect, union}

again : (x y : ℕ) (s : List ℕ) → contains y s ≡ true → contains x s ≡ (x == y || contains x s)
unfolding contains
again x y s h = ground arith

pub contains-insert : (x y : ℕ) (s : List ℕ) → contains x (insert y s) ≡ (x == y || contains x s)
unfolding insert
contains-insert x y s = elim (Bool-cases (contains y s)) [
  | inl old ↦ rw old (again x y s old)
  | inr new ↦ rw new (unfold contains in refl)
]

pub contains-collect : (x : ℕ) (xs : List ℕ) → contains x (collect xs) ≡ contains x xs
unfolding collect
contains-collect x [] = refl
contains-collect x (y ∷ xs) =
    contains-insert x y (collect xs) ∙ rw (contains-collect x xs) (unfold contains in refl)

or_assoc : (a b c : Bool) → (a || (b || c)) ≡ ((a || b) || c)
or_assoc true b c = refl
or_assoc false b c = refl

pub contains-union :
    (x : ℕ) (a b : List ℕ) → contains x (union a b) ≡ (contains x b || contains x a)
unfolding union
contains-union x a [] = unfold contains in refl
contains-union x a (y ∷ b) =
    contains-insert x y (union a b)
    ∙ ap (λ (t : Bool). x == y || t) (contains-union x a b)
    ∙ or_assoc (x == y) (contains x b) (contains x a)
    ∙ (unfold contains in refl)

-- Equal sets have the same members on the left that they have on the right.
pub all-contains :
    (x : ℕ) (a b : List ℕ)
    → all (λ y. contains y b) a ≡ true
    → contains x a ≡ true
    → contains x b ≡ true
unfolding contains
all-contains x [] b h i = absurd (cc i)
all-contains x (y ∷ a) b h i = ground (arith, all-contains x a b)

pub all_self :
    (a b : List ℕ)
    → ((x : ℕ) → contains x a ≡ true → contains x b ≡ true)
    → all (λ y. contains y b) a ≡ true
all_self [] b h = refl
all_self (y ∷ a) b h =
    rw
      (
        h y (unfold contains in ground arith),
        all_self a b (λ x i. h x (unfold contains in ground arith)),
      )
      refl
