-- ===== src/Server/Interleaved/Safety.antt =====
-- The invariant while several calls run at once (chat_server/src/services).
use chat.Base.{◌≡◌, refl, sym, subst}
use chat.Server.Error.{AppError, Result, ok, err, panic}
use chat.Server.World.{World, Tables, M, Statement, query}
use chat.Server.World.Triples.{Ends, Triple-query}
use chat.Server.Invariant.{IsValid}
use chat.Server.Interleaved.{Call, ended, waiting, continue, ◌>>=◌}
use chat.Server.Book.{book_of, Change, stayed}
use chat.Server.Interleaved.Growth.{Grows, IsOnceEmail, IsGrown, IsGrown-same}

-- what holds between any two accesses
pub record IsSteady (t : Tables) : Type 0 where
  pub valid : IsValid t
  pub once : IsOnceEmail t.users

-- what an access does to the tables
abbrev pub Moves : Tables → Tables → Type 0
Moves t u = IsSteady u × Grows t u × Change (book_of t) (book_of u)

-- The call keeps this, from `t` or whatever other calls make of it meanwhile.
abbrev pub Safe : {A : Type 0} → Call A → Tables → Type 0
Safe (ended r) t = Unit
Safe (waiting f k) t =
    (w : World)
    → IsSteady w.tables
    → Grows t w.tables
    → Moves w.tables (f w).tables × Safe (k w) (f w).tables

pub Safe-Grows : {A : Type 0} (c : Call A) (t u : Tables) → Safe c t → Grows t u → Safe c u
Safe-Grows (ended r) t u s g = tt
Safe-Grows (waiting f k) t u s g = λ w v h. s w v (λ z x. h z (g z x))

unmoved : (t u : Tables) → IsSteady t → u ≡ t → Moves t u
unmoved t u v e = subst (Moves t) (sym e) (v, (λ z h. h), stayed)

module _ {A B : Type 0} where
  Safe-continue :
      (k : A → Call B) (t : Tables) (r : Result AppError A) (u : Tables)
      → Ends (λ a v. Moves t v × Safe (k a) v) (Moves t) r u
      → Moves t u × Safe (continue k r) u
  unfolding continue
  Safe-continue k t (ok a) u h = h
  Safe-continue k t (err e) u h = (h, tt)
  Safe-continue k t panic u h = (h, tt)

  pub Safe-access :
      (m : M A) (k : A → Call B) (t : Tables)
      → ((w : World)
          → IsSteady w.tables
          → Grows t w.tables
          → Ends (λ a v. Moves w.tables v × Safe (k a) v) (Moves w.tables) (m w).0 (m w).1.tables)
      → Safe (m >>= k) t
  unfolding ◌>>=◌
  Safe-access m k t h w v g = Safe-continue k w.tables (m w).0 (m w).1.tables (h w v g)

  kept_throughout :
      (k : A → Call B) (t u : Tables) (r : Result AppError A)
      → IsSteady t
      → u ≡ t
      → ((a : A) → Safe (k a) u)
      → Ends (λ a v. Moves t v × Safe (k a) v) (Moves t) r u
  kept_throughout k t u (ok a) v e h = (unmoved t u v e, h a)
  kept_throughout k t u (err x) v e h = unmoved t u v e
  kept_throughout k t u panic v e h = unmoved t u v e

  -- an access that leaves the tables as they are
  pub Safe-look :
      (m : M A) (k : A → Call B) (t : Tables)
      → ((w : World) → (m w).1.tables ≡ w.tables)
      → ((a : A) (u : Tables) → Safe (k a) u)
      → Safe (m >>= k) t
  Safe-look m k t same rest = Safe-access m k t (λ w v g.
      kept_throughout k w.tables (m w).1.tables (m w).0 v (same w) (λ a. rest a (m w).1.tables))

  pub Safe-query :
      (s : Statement A) (k : A → Call B) (t : Tables)
      → ((u : Tables) → IsSteady u → Grows t u → IsValid (s u).1)
      → ((u : Tables) → IsGrown u (s u).1)
      → ((u : Tables) → IsSteady u → Grows t u → Change (book_of u) (book_of (s u).1))
      → ((u : Tables) (a : A) → IsSteady u → Grows t u → (s u).0 ≡ ok a → Safe (k a) (s u).1)
      → Safe (query s >>= k) t
  Safe-query s k t keeps grown change rest = Safe-access (query s) k t (λ w v g.
      Triple-query (λ u. IsSteady u × Grows t u × (u ≡ w.tables)) s
        (λ a x. Moves w.tables x × Safe (k a) x) (Moves w.tables)
        (record {
          skipped = λ u p. unmoved w.tables u v p.2;
          unheard = λ u p. from w.tables u p.2 (moved u p.0 p.1);
          heard = λ u a p r. (from w.tables u p.2 (moved u p.0 p.1), rest u a p.0 p.1 r);
        })
        w (v, g, refl))
    where
      moved : (u : Tables) → IsSteady u → Grows t u → Moves u (s u).1
      moved u v g = (
        record { valid = keeps u v g; once = (grown u).once v.once },
        (grown u).grows,
        change u v g,
      )

      from : (x u : Tables) → u ≡ x → Moves u (s u).1 → Moves x (s u).1
      from x u e = subst (λ y. Moves y (s u).1) e

-- a statement that only reads
pub Safe-read :
    {A B : Type 0} (s : Statement A) (k : A → Call B) (t : Tables)
    → ((u : Tables) → (s u).1 ≡ u)
    → ((u : Tables) (a : A) → IsSteady u → Grows t u → (s u).0 ≡ ok a → Safe (k a) u)
    → Safe (query s >>= k) t
Safe-read s k t same rest =
    Safe-query s k t (λ u v g. subst IsValid (sym (same u)) v.valid)
      (λ u. subst (IsGrown u) (sym (same u)) (IsGrown-same u u refl))
      (λ u v g. subst (λ x. Change (book_of u) (book_of x)) (sym (same u)) stayed)
      (λ u a v g e. subst (Safe (k a)) (sym (same u)) (rest u a v g e))
