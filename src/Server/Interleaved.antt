-- ===== src/Server/Interleaved.antt =====
-- Requests served at the same time: a call of a service is cut at its accesses to what it shares with
-- other calls (a statement, the random source, the disk), and the accesses of several calls follow
-- each other in any order. The calls are those of Server/Services.
pub mod Calls
pub mod Schedule
mod Alone
pub mod Growth
pub mod Safety
pub mod Requests
pub mod Reachable
pub mod Budget
pub mod Totals
pub mod Scheduler
use chat.Base.{Text, List, [], ◌∷◌, ◌++◌, ◌≡◌}
use chat.Core.{Time}
use chat.Server.Error.{AppError, Result, ok, err, panic}
use chat.Server.World.{World, M, Link, Entry}

-- A call: its result, or its next access and what follows, which depends on what the access saw.
pub data Call (A : Type 0) : Type 0 where
  ended : Result AppError A → Call A
  waiting : (World → World) → (World → Call A) → Call A

module _ {A B : Type 0} where
  unfoldable pub continue : (A → Call B) → Result AppError A → Call B
  continue k (ok a) = k a
  continue k (err e) = ended (err e)
  continue k panic = ended panic

  -- one access with `?`, and what follows
  infixl 5 ◌>>=◌
  unfoldable pub ◌>>=◌ : M A → (A → Call B) → Call B
  m >>= k = waiting (λ w. (m w).1) (λ w. continue k (m w).0)

  unfoldable pub answer_by : (A → B) → Call A → Call B
  answer_by f (ended (ok a)) = ended (ok (f a))
  answer_by f (ended (err e)) = ended (err e)
  answer_by f (ended panic) = ended panic
  answer_by f (waiting g k) = waiting g (λ w. answer_by f (k w))

module _ {A : Type 0} where
  -- a call that no other call interrupts
  unfoldable pub run : Call A → M A
  run (ended r) w = (r, w)
  run (waiting f k) w = run (k w) (f w)

  abbrev pub returned : A → Call A
  returned a = ended (ok a)

  abbrev pub refused : AppError → Call A
  refused e = ended (err e)
