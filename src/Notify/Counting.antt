-- ===== src/Notify/Counting.antt =====
-- How many members a set has: two sets with the same members have as many.
use chat.Base.{
  ℕ, suc, ◌≤◌, ◌≡◌, refl, sym, ◌∙◌, true, false, List, [], ◌∷◌, ◌==◌, arith, all, length,
  if◌then◌else◌, Bool-cases, inl, inr,
}
use chat.Notify.Sets.{contains, insert, collect, equal}
use chat.Notify.Members.{all_self, all-contains}

-- no number twice
abbrev pub IsOnce : List ℕ → Type 0
IsOnce [] = Unit
IsOnce (x ∷ xs) = (contains x xs ≡ false) × IsOnce xs

abbrev remove : ℕ → List ℕ → List ℕ
remove x [] = []
remove x (y ∷ ys) = if x == y then ys else y ∷ remove x ys

length-remove : (x : ℕ) (s : List ℕ) → contains x s ≡ true → suc (length (remove x s)) ≡ length s
unfolding contains
length-remove x [] h = absurd (cc h)
length-remove x (y ∷ s) h = ground (arith, length-remove x s)

contains-remove :
    (x z : ℕ) (s : List ℕ) → (x == z) ≡ false → contains z s ≡ true → contains z (remove x s) ≡ true
unfolding contains
contains-remove x z [] n h = h
contains-remove x z (y ∷ s) n h = ground (arith, contains-remove x z s)

all-remove :
    (x : ℕ) (a b : List ℕ)
    → contains x a ≡ false
    → all (λ y. contains y b) a ≡ true
    → all (λ y. contains y (remove x b)) a ≡ true
unfolding contains
all-remove x [] b n h = refl
all-remove x (y ∷ a) b n h = ground (arith, all-remove x a b, contains-remove x y b)

length-le : (a b : List ℕ) → IsOnce a → all (λ y. contains y b) a ≡ true → length a ≤ length b
length-le [] b o h = omega arith
length-le (x ∷ a) b o h =
    ground (arith, length-le a (remove x b) o.1, all-remove x a b o.0, length-remove x b)

IsOnce-insert : (x : ℕ) (s : List ℕ) → IsOnce s → IsOnce (insert x s)
unfolding insert
IsOnce-insert x s o = ground arith

pub IsOnce-collect : (xs : List ℕ) → IsOnce (collect xs)
unfolding collect
IsOnce-collect [] = tt
IsOnce-collect (x ∷ xs) = IsOnce-insert x (collect xs) (IsOnce-collect xs)

-- Sets with the same members are equal.
pub equal-same :
    (a b : List ℕ)
    → IsOnce a
    → IsOnce b
    → ((x : ℕ) → contains x a ≡ contains x b)
    → equal a b ≡ true
unfolding equal
equal-same a b oa ob h =
    let there = all_self a b (λ x i. sym (h x) ∙ i) in
    let back = all_self b a (λ x i. h x ∙ i) in
    let n = length-le a b oa there in let m = length-le b a ob back in ground (arith, there)

pub equal-right :
    (x : ℕ) (a b : List ℕ) → equal a b ≡ true → contains x a ≡ true → contains x b ≡ true
unfolding equal
equal-right x a b h i = all-contains x a b (ground arith) i

-- In an equal set every number of the right one is in the left one: with a further number on the
-- right, the right one would have more.
pub equal-left :
    (x : ℕ) (a b : List ℕ) → IsOnce a → equal a b ≡ true → contains x b ≡ true → contains x a ≡ true
unfolding equal
equal-left x a b oa h i = elim (Bool-cases (contains x a)) [
  | inl there ↦ there
  | inr gone ↦
      let all_of : all (λ y. contains y b) a ≡ true = ground arith in
      let n = length-le (x ∷ a) b (gone, oa) (rw (i, all_of) refl) in ground arith
]
