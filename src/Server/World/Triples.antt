-- ===== src/Server/World/Triples.antt =====
-- Triples over the tables: what holds of them before an async function, of its value and the tables
-- when it returns, and of the tables when it fails or panics.
use chat.Base.{◌≡◌, refl, subst, List, [], ◌∷◌}
use chat.Server.Error.{AppError, SqlError, Result, ok, err, panic, ok-injective}
use chat.Server.World.{
  World, Tables, M, Statement, Link, answered, refused, reply_lost, resume, ◌>>=◌, query, run_over,
  lift_sql, pure, raise,
}

abbrev pub Ends :
    {A : Type 0} → (A → Tables → Type 0) → (Tables → Type 0) → Result AppError A → Tables → Type 0
Ends R E (ok a) t = R a t
Ends R E (err _) t = E t
Ends R E panic t = E t

abbrev pub Triple :
    {A : Type 0} → (Tables → Type 0) → M A → (A → Tables → Type 0) → (Tables → Type 0) → Type 0
Triple P m R E = (w : World) → P w.tables → Ends R E (m w).0 (m w).1.tables

resume_lem :
    {A B : Type 0} (R : A → Tables → Type 0) (S : B → Tables → Type 0) (E : Tables → Type 0)
    (f : A → M B)
    → ((a : A) → Triple (R a) (f a) S E)
    → (r : Result AppError A) (w : World) → Ends R E r w.tables
    → Ends S E (resume f (r, w)).0 (resume f (r, w)).1.tables
resume_lem R S E f h (ok a) w p = h a w p
resume_lem R S E f h (err e) w p = p
resume_lem R S E f h panic w p = p

pub Triple->>= :
    {A B : Type 0} (P : Tables → Type 0) (R : A → Tables → Type 0) (S : B → Tables → Type 0)
    (E : Tables → Type 0) (m : M A) (f : A → M B)
    → Triple P m R E
    → ((a : A) → Triple (R a) (f a) S E)
    → Triple P (m >>= f) S E
unfolding ◌>>=◌
Triple->>= P R S E m f h k w p = resume_lem R S E f k (m w).0 (m w).1 (h w p)

-- A statement's three duties, for the tables before it and after it.
pub record Runs {A : Type 0} (P : Tables → Type 0) (s : Statement A) (R : A → Tables → Type 0)
    (E : Tables → Type 0) : Type 0 where
  pub skipped : (t : Tables) → P t → E t
  pub unheard : (t : Tables) → P t → E (s t).1
  pub heard : (t : Tables) (a : A) → P t → (s t).0 ≡ ok a → R a (s t).1

module _ {A : Type 0} (P : Tables → Type 0) (s : Statement A) (R : A → Tables → Type 0)
    (E : Tables → Type 0) (d : Runs P s R E) where
  heard_lem :
      (t : Tables) (p : P t) (r : Result SqlError A) → (s t).0 ≡ r → Ends R E (lift_sql r) (s t).1
  heard_lem t p (ok a) e = d.heard t a p e
  heard_lem t p (err x) e = d.unheard t p
  heard_lem t p panic e = d.unheard t p

  run_over_lem : (links : List Link) → Triple P (run_over links s) R E
  run_over_lem [] w p = heard_lem w.tables p (s w.tables).0 refl
  run_over_lem (answered ∷ rest) w p = heard_lem w.tables p (s w.tables).0 refl
  run_over_lem (refused ∷ rest) w p = d.skipped w.tables p
  run_over_lem (reply_lost ∷ rest) w p = d.unheard w.tables p

  -- However the connection behaves, a query does as its statement does.
  pub Triple-query : Triple P (query s) R E
  unfolding query
  Triple-query w p = run_over_lem w.link w p

pub Triple-pure :
    {A : Type 0} (P : Tables → Type 0) (R : A → Tables → Type 0) (E : Tables → Type 0) (a : A)
    → ((t : Tables) → P t → R a t)
    → Triple P (pure a) R E
Triple-pure P R E a h w p = h w.tables p

pub Triple-raise :
    {A : Type 0} (P : Tables → Type 0) (R : A → Tables → Type 0) (E : Tables → Type 0)
    (e : AppError)
    → ((t : Tables) → P t → E t)
    → Triple P (raise {A = A} e) R E
Triple-raise P R E e h w p = h w.tables p

-- What a triple says of a call that returned.
pub Ends-ok :
    {A : Type 0} (R : A → Tables → Type 0) (E : Tables → Type 0) (r : Result AppError A) (a : A)
    (t : Tables)
    → Ends R E r t
    → r ≡ ok a
    → R a t
Ends-ok R E (ok b) a t h e = subst (λ x. R x t) (ok-injective b a e) h
Ends-ok R E (err _) a t h e = absurd (cc e)
Ends-ok R E panic a t h e = absurd (cc e)

-- With nothing amiss on the connection a query is its statement.
pub query_up :
    {A : Type 0} (s : Statement A) (w : World)
    → w.link ≡ []
    → query s w ≡ (lift_sql (s w.tables).0, record w { tables = (s w.tables).1 })
unfolding query
query_up s w up = rw up
