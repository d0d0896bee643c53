-- ===== src/Server/Interleaved/Totals.antt =====
-- The accesses of all requests together.
use chat.Base.{ℕ, zero, suc, ◌+◌, ◌≤◌, ◌≡◌, subst, Text, List, [], ◌∷◌, ◌++◌, arith}
use chat.Server.World.{Env, World}
use chat.Server.Interleaved.{Call, waiting}
use chat.Server.Interleaved.Schedule.{
  Answer, System, arrive, access, connect, upload, tick, Reach, here, next,
}
use chat.Server.Interleaved.Budget.{Within, Within-begin, budget}

-- each call within its own share
abbrev AllWithin : List ℕ → List (Call Answer) → Type 0
AllWithin [] [] = Unit
AllWithin (n ∷ ns) (c ∷ cs) = Within n c × AllWithin ns cs
AllWithin [] (c ∷ cs) = ⊥
AllWithin (n ∷ ns) [] = ⊥

abbrev sum : List ℕ → ℕ
sum [] = 0
sum (n ∷ ns) = n + sum ns

-- One access of one call takes one from the sum of the shares.
AllWithin-access :
    (ns : List ℕ) (before : List (Call Answer)) (f : World → World) (k : World → Call Answer)
    (after : List (Call Answer)) (w : World)
    → AllWithin ns (before ++ waiting f k ∷ after)
    → (ms : List ℕ) × AllWithin ms (before ++ k w ∷ after) × (suc (sum ms) ≡ sum ns)
AllWithin-access [] [] f k after w h = absurd h
AllWithin-access [] (c ∷ before) f k after w h = absurd h
AllWithin-access (zero ∷ ns) [] f k after w h = absurd h.0
AllWithin-access (suc n ∷ ns) [] f k after w h = (n ∷ ns, (h.0 w, h.1), omega arith)
AllWithin-access (n ∷ ns) (c ∷ before) f k after w h =
    let (ms, rest, e) = AllWithin-access ns before f k after w h.1 in
    (n ∷ ms, (h.0, rest), omega (arith, e))

module _ {env : Env} {base_dir : Text} {s : System} where
  -- the accesses made on the way
  pub accesses : {t : System} → Reach env base_dir s t → ℕ
  accesses here = 0
  accesses (next reach (access before f k after e)) = suc (accesses reach)
  accesses (next reach (arrive op)) = accesses reach
  accesses (next reach (connect link)) = accesses reach
  accesses (next reach (upload disk)) = accesses reach
  accesses (next reach (tick now)) = accesses reach

  -- the accesses that the requests that arrived on the way may make
  pub budgets : {t : System} → Reach env base_dir s t → ℕ
  budgets here = 0
  budgets (next reach (arrive op)) = budget op + budgets reach
  budgets (next reach (access before f k after e)) = budgets reach
  budgets (next reach (connect link)) = budgets reach
  budgets (next reach (upload disk)) = budgets reach
  budgets (next reach (tick now)) = budgets reach

-- the shares of the calls that have begun: what the requests may still do
abbrev Shares :
    (env : Env) (base_dir : Text) (w : World) (t : System)
    → Reach env base_dir (record { world = w; calls = [] }) t
    → Type 0
Shares env base_dir w t reach =
    (ns : List ℕ) × AllWithin ns t.calls × (accesses reach + sum ns ≡ budgets reach)

shares :
    (env : Env) (base_dir : Text) (w : World) (t : System)
    (reach : Reach env base_dir (record { world = w; calls = [] }) t)
    → Shares env base_dir w t reach
unfolding accesses budgets
shares env base_dir w _ here = ([], tt, omega arith)
shares env base_dir w _ (next {t} reach (arrive op)) =
    let (ns, all, e) = shares env base_dir w t reach in
    (budget op ∷ ns, (Within-begin env base_dir op, all), omega (arith, e))
shares env base_dir w _ (next {t} reach (access before f k after e)) =
    let (ns, all, n) = shares env base_dir w t reach in
    let (ms, rest, m) = AllWithin-access ns before f k after t.world (subst (AllWithin ns) e all) in
    (ms, rest, omega (arith, n, m))
shares env base_dir w _ (next {t} reach (connect link)) = shares env base_dir w t reach
shares env base_dir w _ (next {t} reach (upload disk)) = shares env base_dir w t reach
shares env base_dir w _ (next {t} reach (tick now)) = shares env base_dir w t reach

-- However the accesses of any requests interleave and whatever they see, there are no more of them
-- than six for each sign-up, two for each creation, update or deletion of a chat, and one more than
-- the files for each message that has arrived.
pub accesses-budgets :
    (env : Env) (base_dir : Text) (w : World) (t : System)
    (reach : Reach env base_dir (record { world = w; calls = [] }) t)
    → accesses reach ≤ budgets reach
accesses-budgets env base_dir w t reach =
    let (ns, all, e) = shares env base_dir w t reach in omega (arith, e)
