-- ===== src/Server/Services/Msgs/Complete.antt =====
-- What one page of `MsgService::list` holds: chat_server/src/services/msg.rs.
use chat.Base.{
  ℕ, zero, suc, ℤ, ◌≤◌, ◌<◌, ◌^◌, ◌≡◌, refl, sym, ap, subst, ◌⊎◌, inl, inr, Bool, true, ltb_ℤ, List,
  [], ◌∷◌, All, All-take, select, take, length, arith, as_i64, DistinctKeys, Bool-cases,
}
use chat.Core.{Message}
use chat.Server.Error.{ok}
use chat.Server.Models.{ListMessageOption}
use chat.Server.World.{World}
use chat.Server.Sql.Rows.{place, order_desc}
use chat.Server.Sql.Messages.{below_desc}
use chat.Server.Services.Msgs.{list, last_id_or}
use chat.Server.Services.Msgs.Paging.{IsDescending}
use chat.Server.Services.Msgs.Pages.{
  in_page, listed, list_up, below_desc-All, below_desc-IsDescending,
}
use chat.Server.Invariant.{message_key}

abbrev pub In : Message → List Message → Type 0
In m [] = ⊥
In m (x ∷ xs) = (m ≡ x) ⊎ In m xs

In-select :
    (q : Message → Bool) (m : Message) (ms : List Message)
    → In m ms
    → q m ≡ true
    → In m (select q ms)
In-select q m [] i h = absurd i
In-select q m (x ∷ xs) (inl e) h = rw (subst (λ y. q y ≡ true) e h) (inl e)
In-select q m (x ∷ xs) (inr i) h = elim (Bool-cases (q x)) [
  | inl t ↦ rw t (inr (In-select q m xs i h))
  | inr f ↦ rw f (In-select q m xs i h)
]

In-place : (x m : Message) (ms : List Message) → In x (m ∷ ms) → In x (place m ms)
unfolding place
In-place x m [] i = i
In-place x m (y ∷ ms) (inl e) = elim (Bool-cases (ltb_ℤ m.id y.id)) [
  | inl less ↦ rw less (inr (In-place x m ms (inl e)))
  | inr more ↦ rw more (inl e)
]
In-place x m (y ∷ ms) (inr (inl e)) = elim (Bool-cases (ltb_ℤ m.id y.id)) [
  | inl less ↦ rw less (inl e)
  | inr more ↦ rw more (inr (inl e))
]
In-place x m (y ∷ ms) (inr (inr j)) = elim (Bool-cases (ltb_ℤ m.id y.id)) [
  | inl less ↦ rw less (inr (In-place x m ms (inr j)))
  | inr more ↦ rw more (inr (inr j))
]

In-order_desc : (x : Message) (ms : List Message) → In x ms → In x (order_desc ms)
unfolding order_desc
In-order_desc x [] i = i
In-order_desc x (m ∷ ms) (inl e) = In-place x m (order_desc ms) (inl e)
In-order_desc x (m ∷ ms) (inr i) = In-place x m (order_desc ms) (inr (In-order_desc x ms i))

All-In : (P : Message → Type 0) (m : Message) (ms : List Message) → All P ms → In m ms → P m
All-In P m [] h i = absurd i
All-In P m (x ∷ xs) h (inl e) = subst P (sym e) h.0
All-In P m (x ∷ xs) h (inr i) = All-In P m xs h.1 i

-- on the page, or below a full page
abbrev pub Accounted : ℕ → Message → List Message → Type 0
Accounted n m page = In m page ⊎ ((length page ≡ n) × All (λ x. ltb_ℤ m.id x.id ≡ true) page)

In-take :
    (n : ℕ) (m : Message) (ms : List Message)
    → IsDescending ms
    → In m ms
    → Accounted n m (take n ms)
In-take zero m ms d i = inr (refl, tt)
In-take (suc n) m [] d i = absurd i
In-take (suc n) m (x ∷ xs) d (inl e) = inl (inl e)
In-take (suc n) m (x ∷ xs) d (inr i) =
    behind (All-In (λ y. ltb_ℤ y.id x.id ≡ true) m xs d.0 i) (In-take n m xs d.1 i)
  where
    behind :
        ltb_ℤ m.id x.id ≡ true → Accounted n m (take n xs) → Accounted (suc n) m (x ∷ take n xs)
    behind l (inl j) = inl (inr j)
    behind l (inr (full, a)) = inr (ap suc full, (l, a))

IsDescending-take : (n : ℕ) (ms : List Message) → IsDescending ms → IsDescending (take n ms)
IsDescending-take zero ms d = tt
IsDescending-take (suc n) [] d = tt
IsDescending-take (suc n) (m ∷ ms) d = (All-take _ n ms d.0, IsDescending-take n ms d.1)

length-take-le : (n : ℕ) (ms : List Message) → length (take n ms) ≤ n
length-take-le zero ms = omega arith
length-take-le (suc n) [] = omega arith
length-take-le (suc n) (m ∷ ms) = omega (arith, length-take-le n ms)

-- What a page is, in the chat `chat_id` below the id `last_id`, of at most `n` messages.
pub record IsPage (chat_id last_id : ℤ) (n : ℕ) (table page : List Message) : Type 0 where
  pub chosen : All (λ m. in_page chat_id last_id m ≡ true) page
  pub newest_first : IsDescending page
  pub short : length page ≤ n
  pub complete : (m : Message) → In m table → in_page chat_id last_id m ≡ true → Accounted n m page

-- With its statement answered, message ids distinct and a limit below 2 ^ 63, `list` returns
-- messages of the chat below `last_id` (below `i64::MAX` if none is given), the newest first, at
-- most `limit` of them; each stored message of that kind is on the page, or the page is full and
-- all of it is newer.
pub list-IsPage :
    (input : ListMessageOption) (chat_id : ℕ) (w : World)
    → w.link ≡ []
    → DistinctKeys message_key w.tables.messages
    → input.limit < 2 ^ 63
    → (page : List Message) × ((list input chat_id w).0 ≡ ok page)
      × IsPage
          (as_i64 chat_id)
          (as_i64 (last_id_or input.last_id))
          input.limit
          w.tables.messages
          page
list-IsPage input chat_id w up d small =
    let chat = as_i64 chat_id in
    let last = as_i64 (last_id_or input.last_id) in
    let ms = w.tables.messages in
    let desc = below_desc-IsDescending chat last ms d in
    (
      take input.limit (listed input chat_id w),
      list_up input chat_id w up small,
      record {
        chosen = All-take _ input.limit _ (below_desc-All chat last ms);
        newest_first = IsDescending-take input.limit _ desc;
        short = length-take-le input.limit _;
        complete = λ m i h.
            In-take input.limit m _ desc
              (unfold below_desc in In-order_desc m _ (In-select (in_page chat last) m ms i h));
      },
    )
