-- ===== src/Server/Services/Msgs/Pages.antt =====
-- The pages that `MsgService::list` gives.
use native.Mathlib.Nat.{zero-add, suc-add}
use chat.Base.{
  ℕ, zero, suc, ◌+◌, ◌<◌, ◌^◌, ◌≡◌, refl, sym, ◌∙◌, ap, subst, ℤ, pos, eq_ℤ, ltb_ℤ, Bool, true,
  ◌&&◌, some, List, [], ◌∷◌, ◌++◌, All, select, take, drop, arith, as_i64, as_u64, as_i64-as_u64,
  IsI64, DistinctKeys, DistinctKeys-select, take-append-drop, append_assoc,
}
use chat.Core.{Message}
use chat.Server.Error.{ok, ok-injective}
use chat.Server.Models.{ListMessageOption}
use chat.Server.World.{World, query}
use chat.Server.Sql.Rows.{order_desc}
use chat.Server.Sql.Messages.{below_desc, select_messages}
use chat.Server.Services.Msgs.{list, last_id_or}
use chat.Server.Services.Msgs.Paging.{
  IsDescending, All-order, All-middle, select-order_desc, select-select, select_below,
  order_desc-IsDescending, ltb_ℤ-trans,
}
use chat.Server.Invariant.{message_key}

-- a row of a chat, below an id
abbrev pub in_page : ℤ → ℤ → Message → Bool
in_page chat_id last_id m = eq_ℤ m.chat_id chat_id && ltb_ℤ m.id last_id

chosen-All : (p : Message → Bool) (ms : List Message) → All (λ m. p m ≡ true) (select p ms)
chosen-All p [] = tt
chosen-All p (m ∷ ms) = ground (arith, chosen-All p ms)

pub below_desc-All :
    (chat_id last_id : ℤ) (ms : List Message)
    → All (λ m. in_page chat_id last_id m ≡ true) (below_desc chat_id last_id ms)
unfolding below_desc
below_desc-All chat_id last_id ms = All-order _ _ (chosen-All (in_page chat_id last_id) ms)

pub below_desc-IsDescending :
    (chat_id last_id : ℤ) (ms : List Message)
    → DistinctKeys message_key ms
    → IsDescending (below_desc chat_id last_id ms)
unfolding below_desc
below_desc-IsDescending chat_id last_id ms d =
    order_desc-IsDescending _ (DistinctKeys-select message_key (in_page chat_id last_id) ms d)

in_page-below :
    (chat_id last_id : ℤ) (m x : Message)
    → in_page chat_id last_id m ≡ true
    → in_page chat_id m.id x ≡ (in_page chat_id last_id x && ltb_ℤ x.id m.id)
in_page-below chat_id last_id m x h = ground (arith, ltb_ℤ-trans x.id m.id last_id)

select_congr :
    (p q : Message → Bool) (ms : List Message)
    → ((x : Message) → p x ≡ q x)
    → select p ms ≡ select q ms
select_congr p q [] h = refl
select_congr p q (m ∷ ms) h = rw (h m, select_congr p q ms h)

-- The rows below a listed row are those behind it in the list.
below_desc-next :
    (chat_id last_id : ℤ) (ms front : List Message) (m : Message) (back : List Message)
    → DistinctKeys message_key ms
    → below_desc chat_id last_id ms ≡ front ++ m ∷ back
    → below_desc chat_id m.id ms ≡ back
unfolding below_desc
below_desc-next chat_id last_id ms front m back d e =
    let here =
      All-middle (λ x. in_page chat_id last_id x ≡ true) front m back
        (subst (All (λ x. in_page chat_id last_id x ≡ true)) e
          (below_desc-All chat_id last_id ms)) in
    ap order_desc (
      select_congr (in_page chat_id m.id) _ ms (λ x. in_page-below chat_id last_id m x here)
      ∙ sym (select-select (in_page chat_id last_id) (λ x. ltb_ℤ x.id m.id) ms))
    ∙ sym (
        select-order_desc (λ x. ltb_ℤ x.id m.id) (select (in_page chat_id last_id) ms)
          (DistinctKeys-select message_key (in_page chat_id last_id) ms d))
    ∙ ap (select (λ x. ltb_ℤ x.id m.id)) e
    ∙ select_below front m back
        (subst IsDescending e (below_desc-IsDescending chat_id last_id ms d))

pub as_i64_small : (n : ℕ) → n < 2 ^ 63 → as_i64 n ≡ pos n
unfolding as_i64
as_i64_small n h = ground arith

-- the whole list of which a call of `list` gives the front
abbrev pub listed : ListMessageOption → ℕ → World → List Message
listed input chat_id w =
    below_desc (as_i64 chat_id) (as_i64 (last_id_or input.last_id)) w.tables.messages

pub list_up :
    (input : ListMessageOption) (chat_id : ℕ) (w : World)
    → w.link ≡ []
    → input.limit < 2 ^ 63
    → (list input chat_id w).0 ≡ ok (take input.limit (listed input chat_id w))
unfolding list query select_messages
list_up input chat_id w up small = rw (up, as_i64_small input.limit small) refl

take-add : (a b : ℕ) (ms : List Message) → take (a + b) ms ≡ take a ms ++ take b (drop a ms)
take-add zero b ms = rw zero-add
take-add (suc a) zero [] = rw suc-add
take-add (suc a) (suc b) [] = rw suc-add
take-add (suc a) b (m ∷ ms) = rw (suc-add, take-add a b ms)

-- The front of a list, and the rest of it.
split_front :
    (n : ℕ) (ms front : List Message) (m : Message)
    → take n ms ≡ front ++ m ∷ []
    → ms ≡ front ++ m ∷ drop n ms
split_front n ms front m e =
    sym (take-append-drop n ms)
    ∙ ap (λ (l : List Message). l ++ drop n ms) e
    ∙ append_assoc front (m ∷ []) (drop n ms)

-- With every statement answered, message ids distinct, the sum of both limits below 2 ^ 63, and the
-- last id of a non-empty page in the range of i64, that page followed by the page asked for below
-- its last id is the page of both limits together.
pub list_pages_join :
    (input : ListMessageOption) (chat_id b : ℕ) (w : World) (front : List Message) (m : Message)
    → w.link ≡ []
    → DistinctKeys message_key w.tables.messages
    → IsI64 m.id
    → input.limit + b < 2 ^ 63
    → (list input chat_id w).0 ≡ ok (front ++ m ∷ [])
    → (p : List Message) × ((list (record { last_id = some (as_u64 m.id); limit = b }) chat_id w).0
        ≡ ok p)
      × ((list (record input { limit = input.limit + b }) chat_id w).0 ≡ ok (front ++ m ∷ p))
list_pages_join input chat_id b w front m up d range small first =
    let whole = listed input chat_id w in
    let page : take input.limit whole ≡ front ++ m ∷ [] =
      ok-injective _ _ (sym (list_up input chat_id w up (omega arith)) ∙ first) in
    let split : whole ≡ front ++ m ∷ drop input.limit whole =
      split_front input.limit whole front m page in
    let next : listed (record { last_id = some (as_u64 m.id); limit = b }) chat_id w
        ≡ drop input.limit whole =
      rw (as_i64-as_u64 m.id range) (below_desc-next _ _ _ front m _ d split) in
    (
      take b (drop input.limit whole),
      list_up _ chat_id w up (omega arith) ∙ rw next refl,
      list_up _ chat_id w up small
          ∙ ap ok (
              take-add input.limit b whole
              ∙ ap (λ (l : List Message). l ++ take b (drop input.limit whole)) page
              ∙ append_assoc front (m ∷ []) _),
    )
