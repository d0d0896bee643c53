-- ===== src/Notify/Sets.antt =====
-- `HashSet<u64>` as a list with no number twice.
use chat.Base.{ℕ, Bool, false, ◌&&◌, ◌||◌, List, [], ◌∷◌, ◌==◌, if◌then◌else◌, length, all}

unfoldable pub contains : ℕ → List ℕ → Bool
contains x [] = false
contains x (y ∷ ys) = x == y || contains x ys

unfoldable pub insert : ℕ → List ℕ → List ℕ
insert x s = if contains x s then s else x ∷ s

-- `collect()`
unfoldable pub collect : List ℕ → List ℕ
collect [] = []
collect (x ∷ xs) = insert x (collect xs)

-- `a.union(&b)`: the items of `a`, and those of `b` that are not in `a`
unfoldable pub union : List ℕ → List ℕ → List ℕ
union a [] = a
union a (y ∷ b) = insert y (union a b)

-- `a == b`: as many items, and each of `a` in `b`
unfoldable pub equal : List ℕ → List ℕ → Bool
equal a b = length a == length b && all (λ x. contains x b) a
