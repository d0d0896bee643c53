-- ===== src/Server/Interleaved/Reachable.antt =====
-- What holds in every state that calls of chat_server/src/services reach together.
use chat.Base.{◌≡◌, subst, Text, List, [], ◌∷◌, ◌++◌, All, All-weaken, All-append}
use chat.Core.{Time}
use chat.Server.World.{Env, World, Tables}
use chat.Server.Error.{ok, err, panic}
use chat.Server.Invariant.Runs.{Op}
use chat.Server.Invariant.Runs
use chat.Server.Invariant.Services.{IsLawful}
use chat.Server.Book.{book_of, Change, stayed, Changes, none_yet, then}
use chat.Server.Interleaved.{Call, ended, waiting, answer_by}
use chat.Server.Interleaved.Safety.{IsSteady, Safe, Safe-Grows}
use chat.Server.Interleaved.Requests.{
  create_user-Safe, create_chat-Safe, update-Safe, delete-Safe, create_message-Safe,
}
use chat.Server.Interleaved.Schedule.{
  Answer, begin, System, Step, arrive, access, connect, upload, tick, Reach, here, next,
}

answer_by-Safe :
    {A B : Type 0} (f : A → B) (c : Call A) (t : Tables) → Safe c t → Safe (answer_by f c) t
unfolding answer_by
answer_by-Safe f (ended (ok a)) t s = tt
answer_by-Safe f (ended (err e)) t s = tt
answer_by-Safe f (ended panic) t s = tt
answer_by-Safe f (waiting g k) t s =
    λ w v h. let moved = s w v h in (moved.0, answer_by-Safe f (k w) (g w).tables moved.1)

begin-Safe :
    (env : Env) (base_dir : Text) (op : Op) (t : Tables)
    → IsLawful env
    → Safe (begin env base_dir op) t
unfolding begin
begin-Safe env base_dir (Runs.create_user input) t l =
    answer_by-Safe _ _ t (create_user-Safe env input t)
begin-Safe env base_dir (Runs.create_chat input ws_id) t l =
    answer_by-Safe _ _ t (create_chat-Safe env input ws_id t l)
begin-Safe env base_dir (Runs.update_chat input ws_id chat_id) t l =
    answer_by-Safe _ _ t (update-Safe env input ws_id chat_id t)
begin-Safe env base_dir (Runs.delete_chat ws_id chat_id) t l =
    answer_by-Safe _ _ t (delete-Safe env ws_id chat_id t)
begin-Safe env base_dir (Runs.create_message input chat_id user_id) t l =
    answer_by-Safe _ _ t (create_message-Safe env base_dir input chat_id user_id t)

-- the tables, and what each call that has begun will make of them
record IsSafe (s : System) : Type 0 where
  pub steady : IsSteady s.world.tables
  pub safe : All (λ c. Safe c s.world.tables) s.calls

All-split :
    {A : Type 0} (P : A → Type 0) (xs : List A) (x : A) (ys : List A)
    → All P (xs ++ x ∷ ys)
    → All P xs × P x × All P ys
All-split P [] x ys h = (tt, h.0, h.1)
All-split P (z ∷ xs) x ys h = let rest = All-split P xs x ys h.1 in ((h.0, rest.0), rest.1, rest.2)

IsSteady-tick : (t : Tables) (now : Time) → IsSteady t → IsSteady (record t { clock = now })
IsSteady-tick t now s =
    let v = s.valid in
    record {
      valid = record {
        users_once = v.users_once;
        chats_once = v.chats_once;
        messages_once = v.messages_once;
        rosters = v.rosters;
        owners = v.owners;
        homes = v.homes;
        threads = v.threads;
        issued = v.issued;
      };
      once = s.once;
    }

-- the invariant after a step, and the change that the step made
abbrev Stepped : System → System → Type 0
Stepped s t = IsSafe t × Change (book_of s.world.tables) (book_of t.world.tables)

access-Stepped :
    (s : System) (before : List (Call Answer)) (f : World → World) (k : World → Call Answer)
    (after : List (Call Answer))
    → s.calls ≡ before ++ waiting f k ∷ after
    → IsSafe s
    → Stepped s (record s { world = f s.world; calls = before ++ k s.world ∷ after })
access-Stepped s before f k after e h =
    let w = s.world in
    let parts =
      All-split (λ c. Safe c w.tables) before (waiting f k) after
        (subst (All (λ c. Safe c w.tables)) e h.safe) in
    let moved = parts.1 w h.steady (λ z x. x) in
    let others =
      All-weaken (λ c. Safe c w.tables) (λ c. Safe c (f w).tables)
        (λ c safe. Safe-Grows c w.tables (f w).tables safe moved.0.1) in
    (
      record {
        steady = moved.0.0;
        safe =
            All-append (λ c. Safe c (f w).tables) before (k w ∷ after) (others before parts.0)
              (moved.1, others after parts.2);
      },
      moved.0.2,
    )

Step-Stepped :
    (env : Env) (base_dir : Text) (s t : System)
    → IsLawful env
    → Step env base_dir s t
    → IsSafe s
    → Stepped s t
unfolding book_of
Step-Stepped env base_dir s _ l (arrive op) h = (
  record { steady = h.steady; safe = (begin-Safe env base_dir op s.world.tables l, h.safe) },
  stayed,
)
Step-Stepped env base_dir s _ l (access before f k after e) h =
    access-Stepped s before f k after e h
Step-Stepped env base_dir s _ l (connect link) h =
    (record { steady = h.steady; safe = h.safe }, stayed)
Step-Stepped env base_dir s _ l (upload disk) h =
    (record { steady = h.steady; safe = h.safe }, stayed)
Step-Stepped env base_dir s _ l (tick now) h = (
  record {
    steady = IsSteady-tick s.world.tables now h.steady;
    safe =
        All-weaken (λ c. Safe c s.world.tables) _
          (λ c safe. Safe-Grows c s.world.tables _ safe (λ z x. x)) s.calls h.safe;
  },
  stayed,
)

Reach-Stepped :
    (env : Env) (base_dir : Text) (s t : System)
    → IsLawful env
    → Reach env base_dir s t
    → IsSafe s
    → IsSafe t × Changes (book_of s.world.tables) (book_of t.world.tables)
Reach-Stepped env base_dir s _ l here h = (h, none_yet)
Reach-Stepped env base_dir s _ l (next {t} {u} reach step) h =
    let before = Reach-Stepped env base_dir s t l reach h in
    let after = Step-Stepped env base_dir t u l step before.0 in (after.0, then before.1 after.1)

-- On a database that returns the rows asked for: from a valid state with no two users of the same
-- email and no call begun, any requests, their calls cut at every access and interleaved in any order,
-- over any changes of the connection, the disk and the clock, reach only such states: valid, and no
-- two users with the same email.
pub Reach-IsSteady :
    (env : Env) (base_dir : Text) (w : World) (t : System)
    → IsLawful env
    → Reach env base_dir (record { world = w; calls = [] }) t
    → IsSteady w.tables
    → IsSteady t.world.tables
Reach-IsSteady env base_dir w t l reach steady =
    (Reach-Stepped env base_dir (record { world = w; calls = [] }) t l reach
      (record { steady = steady; safe = tt })).0.steady

-- On a database that returns the rows asked for, from a valid state with no two users of the same
-- email, the services refine the book: whatever requests run at the same time, however their accesses
-- interleave and whatever the connection does, the book at the end is reached from the book at the
-- start by changes that the book allows.
pub Reach-Changes :
    (env : Env) (base_dir : Text) (w : World) (t : System)
    → IsLawful env
    → Reach env base_dir (record { world = w; calls = [] }) t
    → IsSteady w.tables
    → Changes (book_of w.tables) (book_of t.world.tables)
Reach-Changes env base_dir w t l reach steady =
    (Reach-Stepped env base_dir (record { world = w; calls = [] }) t l reach
      (record { steady = steady; safe = tt })).1
