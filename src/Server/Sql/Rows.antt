-- ===== src/Server/Sql/Rows.antt =====
-- Helpers of the statements: the width of varchar columns, ids, and ORDER BY id DESC.
use chat.Base.{
  ℕ, zero, suc, ℤ, pos, negsuc, ltb_ℤ, Text, Bool, true, false, ◌&&◌, Option, none, some, List, [],
  ◌∷◌, ltb, leb, ◌==◌, if◌then◌else◌, all, i64_max,
}
use chat.Core.{Message}
use chat.Server.World.{Env, Notice}

-- a byte that continues a character of UTF-8
abbrev continues : ℕ → Bool
continues c = leb 128 c && ltb c 192

unfoldable pub take_chars : ℕ → Text → Text
take_chars n [] = []
take_chars n (c ∷ s) = elim (continues c) [
  | true ↦ c ∷ take_chars n s
  | false ↦ elim n [ zero ↦ [] | suc k ↦ c ∷ take_chars k s ]
]

unfoldable pub drop_chars : ℕ → Text → Text
drop_chars n [] = []
drop_chars n (c ∷ s) = elim (continues c) [
  | true ↦ drop_chars n s
  | false ↦ elim n [ zero ↦ c ∷ s | suc k ↦ drop_chars k s ]
]

-- A text put into a column varchar(n): more than n characters are an error, unless the excess is
-- spaces, which are cut off.
unfoldable pub fit : ℕ → Text → Option Text
fit n s = if all (λ c. c == b' ') (drop_chars n s) then some (take_chars n s) else none

-- the same for a column that may be NULL
unfoldable pub fit_null : ℕ → Option Text → Option (Option Text)
fit_null n none = some none
fit_null n (some s) = elim (fit n s) [ none ↦ none | some f ↦ some (some f) ]

infixl 5 ◌>>=◌
abbrev pub ◌>>=◌ {ℓ κ} : {A : Type ℓ} {B : Type κ} → Option A → (A → Option B) → Option B
none >>= k = none
some a >>= k = k a

-- `nextval` of a bigserial column
unfoldable pub nextval : ℕ → Option ℤ
nextval n = if ltb i64_max n then none else some (pos n)

-- `pg_notify` refuses a payload of 8000 bytes or more
abbrev pub sendable : Env → Notice → Bool
sendable env n = ltb (env.payload_bytes n) 8000

-- a message put in its place by descending id
unfoldable pub place : Message → List Message → List Message
place m [] = m ∷ []
place m (x ∷ xs) = if ltb_ℤ m.id x.id then x ∷ place m xs else m ∷ x ∷ xs

-- ORDER BY id DESC
unfoldable pub order_desc : List Message → List Message
order_desc [] = []
order_desc (m ∷ ms) = place m (order_desc ms)

-- LIMIT n, which PostgreSQL refuses when it is negative
abbrev pub limit_of : ℤ → Option ℕ
limit_of (pos n) = some n
limit_of (negsuc _) = none
