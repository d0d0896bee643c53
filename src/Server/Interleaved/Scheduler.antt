-- ===== src/Server/Interleaved/Scheduler.antt =====
-- An executable schedule: which request arrives, and whose turn it is.
use chat.Base.{ℕ, zero, suc, ◌≡◌, refl, ap, ◌⊎◌, inl, inr, subst, sym, Text, List, [], ◌∷◌, ◌++◌}
use chat.Server.World.{Env, World}
use chat.Server.Invariant.Runs.{Op}
use chat.Server.Interleaved.{Call, ended, waiting}
use chat.Server.Interleaved.Schedule.{Answer, begin, System, arrive, access, Reach, next}

pub data Event : Type 0 where
  asks : Op → Event
  turn : ℕ → Event

-- the next access of the call at a place, if it waits for one
abbrev pub poll : ℕ → World → List (Call Answer) → World × List (Call Answer)
poll n w [] = (w, [])
poll zero w (ended r ∷ cs) = (w, ended r ∷ cs)
poll zero w (waiting f k ∷ cs) = (f w, k w ∷ cs)
poll (suc n) w (c ∷ cs) = let (v, ds) = poll n w cs in (v, c ∷ ds)

abbrev pub play_one : Env → Text → Event → System → System
play_one env base_dir (asks op) s = record s { calls = begin env base_dir op ∷ s.calls }
play_one env base_dir (turn n) s = record s {
  world = (poll n s.world s.calls).0;
  calls = (poll n s.world s.calls).1;
}

abbrev pub play : Env → Text → List Event → System → System
play env base_dir [] s = s
play env base_dir (e ∷ es) s = play env base_dir es (play_one env base_dir e s)

-- A poll is an access of one of the calls, or does nothing.
record IsAccess (w v : World) (cs ds : List (Call Answer)) : Type 0 where
  pub before : List (Call Answer)
  pub f : World → World
  pub k : World → Call Answer
  pub after : List (Call Answer)
  pub was : cs ≡ before ++ waiting f k ∷ after
  pub world : v ≡ f w
  pub is : ds ≡ before ++ k w ∷ after

poll-IsAccess :
    (n : ℕ) (w : World) (cs : List (Call Answer))
    → ((poll n w cs).0 ≡ w) × ((poll n w cs).1 ≡ cs) ⊎ IsAccess w (poll n w cs).0 cs (poll n w cs).1
poll-IsAccess n w [] = inl (refl, refl)
poll-IsAccess zero w (ended r ∷ cs) = inl (refl, refl)
poll-IsAccess zero w (waiting f k ∷ cs) =
    inr (record { before = []; f = f; k = k; after = cs; was = refl; world = refl; is = refl })
poll-IsAccess (suc n) w (c ∷ cs) = elim (poll-IsAccess n w cs) [
  | inl (same, rest) ↦ inl (same, ap (λ ds. c ∷ ds) rest)
  | inr a ↦ inr (record {
    before = c ∷ a.before;
    f = a.f;
    k = a.k;
    after = a.after;
    was = ap (λ ds. c ∷ ds) a.was;
    world = a.world;
    is = ap (λ ds. c ∷ ds) a.is;
  })
]

-- every schedule is a way that the calls may go
pub play-Reach :
    (env : Env) (base_dir : Text) (es : List Event) (s t : System)
    → Reach env base_dir s t
    → Reach env base_dir s (play env base_dir es t)
play-Reach env base_dir [] s t r = r
play-Reach env base_dir (asks op ∷ es) s t r = play-Reach env base_dir es s _ (next r (arrive op))
play-Reach env base_dir (turn n ∷ es) s t r =
    play-Reach env base_dir es s _ (elim (poll-IsAccess n t.world t.calls) [
      | inl (same, rest) ↦
          subst
            (λ (p : World × List (Call Answer)).
              Reach env base_dir s (record { world = p.0; calls = p.1 }))
            (λ i. (sym same i, sym rest i)) r
      | inr a ↦
          subst
            (λ (p : World × List (Call Answer)).
              Reach env base_dir s (record { world = p.0; calls = p.1 }))
            (λ i. (sym a.world i, sym a.is i)) (next r (access a.before a.f a.k a.after a.was))
    ])
