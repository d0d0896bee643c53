-- ===== src/Tests/Interleaved.antt =====
-- Two sign-ups and a message at the same time, on the small database.
use chat.Base.{◌≤◌, refl, codes, List, [], ◌∷◌}
use chat.Samples.{some_env, few_rows, quiet}
use chat.Server.Invariant.Runs.{create_user, create_chat, delete_chat}
use chat.Server.Book.{book_of, Changes}
use chat.Server.Interleaved.Schedule.{System, Reach, here}
use chat.Server.Interleaved.Scheduler.{Event, asks, turn, play, play-Reach}
use chat.Server.Interleaved.Safety.{IsSteady}
use chat.Server.Interleaved.Reachable.{Reach-IsSteady, Reach-Changes}
use chat.Server.Interleaved.Totals.{accesses, budgets, accesses-budgets}
use chat.Tests.Tables.{some_env-IsLawful, few_rows-IsValid, newcomer, asked}

abbrev start : System
start = record { world = quiet; calls = [] }

-- Two sign-ups with one email, and a chat that is made while another request ends the first one: all
-- look before any of them writes.
abbrev schedule : List Event
schedule =
    asks (create_user newcomer)
    ∷ asks (create_user newcomer)
    ∷ asks (create_chat asked 1)
    ∷ asks (delete_chat 1 1)
    ∷ turn 0
    ∷ turn 1
    ∷ turn 2
    ∷ turn 3
    ∷ turn 2
    ∷ turn 3
    ∷ turn 0
    ∷ turn 1
    ∷ turn 0
    ∷ turn 1
    ∷ turn 0
    ∷ turn 1
    ∷ turn 0
    ∷ turn 1
    ∷ []

few_rows-IsSteady : IsSteady few_rows
few_rows-IsSteady = record { valid = few_rows-IsValid; once = (refl, (refl, tt)) }

abbrev busy : Reach some_env (codes "/tmp") start (play some_env (codes "/tmp") schedule start)
busy = play-Reach some_env (codes "/tmp") schedule start start here

Reach-IsSteady_example : IsSteady (play some_env (codes "/tmp") schedule start).world.tables
Reach-IsSteady_example =
    Reach-IsSteady some_env (codes "/tmp") quiet (play some_env (codes "/tmp") schedule start)
      some_env-IsLawful busy few_rows-IsSteady

Reach-Changes_example :
    Changes (book_of few_rows) (book_of (play some_env (codes "/tmp") schedule start).world.tables)
Reach-Changes_example =
    Reach-Changes some_env (codes "/tmp") quiet (play some_env (codes "/tmp") schedule start)
      some_env-IsLawful busy few_rows-IsSteady

accesses-budgets_example : accesses busy ≤ budgets busy
accesses-budgets_example =
    accesses-budgets some_env (codes "/tmp") quiet (play some_env (codes "/tmp") schedule start)
      busy
