-- ===== src/Server/Services/Msgs/Shown.antt =====
-- A message that `MsgService::create` has stored, as `MsgService::list` shows it
-- (chat_server/src/services/msg.rs).
use chat.Base.{
  ℕ, suc, ◌<◌, ◌^◌, ◌≡◌, refl, ap, ◌∙◌, ℤ, pos, eq_ℤ-refl, ltb_ℤ, Bool, true, none, List, [], ◌∷◌,
  ◌++◌, arith, as_i64, i64_max, All, All-select, select, take, Text,
}
use chat.Core.{Message}
use chat.Server.Error.{ok}
use chat.Server.Models.{CreateMessage}
use chat.Server.World.{Env, World}
use chat.Server.Sql.Rows.{place, order_desc}
use chat.Server.Sql.Messages.{below_desc}
use chat.Server.Services.Msgs.{create, list, last_id_or}
use chat.Server.Services.Msgs.Posted.{create-IsPosted}
use chat.Server.Services.Msgs.Pages.{in_page, list_up}
use chat.Server.Invariant.{IsValid, IsIssued}

order_desc-snoc :
    (m : Message) (ms : List Message)
    → All (λ x. ltb_ℤ x.id m.id ≡ true) ms
    → order_desc (ms ++ m ∷ []) ≡ m ∷ order_desc ms
unfolding order_desc place
order_desc-snoc m [] h = refl
order_desc-snoc m (x ∷ ms) h = rw (order_desc-snoc m ms h.1, h.0) refl

select-snoc :
    (q : Message → Bool) (m : Message) (ms : List Message)
    → q m ≡ true
    → select q (ms ++ m ∷ []) ≡ select q ms ++ m ∷ []
select-snoc q m [] h = rw h refl
select-snoc q m (x ∷ ms) h = ground (arith, select-snoc q m ms h)

-- the ids given out are all below the next one
older :
    (n : ℕ) (m : Message) (ms : List Message)
    → m.id ≡ pos n
    → All (λ (x : Message). IsIssued n x.id) ms
    → All (λ x. ltb_ℤ x.id m.id ≡ true) ms
older n m [] e h = tt
older n m (x ∷ ms) e h = let (k, i, l) = h.0 in (rw (i, e) (ground arith), older n m ms e h.1)

below_desc-snoc :
    (chat_id last_id : ℤ) (m : Message) (ms : List Message)
    → in_page chat_id last_id m ≡ true
    → All (λ x. ltb_ℤ x.id m.id ≡ true) ms
    → below_desc chat_id last_id (ms ++ m ∷ []) ≡ m ∷ below_desc chat_id last_id ms
unfolding below_desc
below_desc-snoc chat_id last_id m ms here h =
    ap order_desc (select-snoc (in_page chat_id last_id) m ms here)
    ∙ order_desc-snoc m _ (All-select _ (in_page chat_id last_id) ms h)

-- the page's bounds hold of a message of the chat whose id is not the last
on_page :
    (chat_id : ℤ) (n : ℕ) (m : Message)
    → m.id ≡ pos n
    → m.chat_id ≡ chat_id
    → n < i64_max
    → in_page chat_id (as_i64 (last_id_or none)) m ≡ true
unfolding as_i64
on_page chat_id n m e c l = rw (e, c, eq_ℤ-refl chat_id) (ground arith)

-- From a valid state: if `create` returns a message, its id below `i64::MAX`, then as long as the table
-- of messages stays as it is, `list` without a last id and with its statement answered gives a page of
-- the chat that begins with that message, and goes on with the page that it gave before under a limit
-- less by one.
pub list-create :
    (env : Env) (base_dir : Text) (input : CreateMessage) (chat_id user_id limit : ℕ) (w v : World)
    (m : Message)
    → IsValid w.tables
    → (create env base_dir input chat_id user_id w).0 ≡ ok m
    → v.tables.messages ≡ (create env base_dir input chat_id user_id w).1.tables.messages
    → w.tables.messages_seq < i64_max
    → suc limit < 2 ^ 63
    → w.link ≡ []
    → v.link ≡ []
    → (page : List Message) × ((list (record { last_id = none; limit = limit }) chat_id w).0
        ≡ ok page)
      × ((list (record { last_id = none; limit = suc limit }) chat_id v).0 ≡ ok (m ∷ page))
list-create env base_dir input chat_id user_id limit w v m valid e same room small up up' =
    let p = create-IsPosted env base_dir input chat_id user_id w m e in
    let n = w.tables.messages_seq in
    let last = as_i64 (last_id_or none) in
    let shown =
      ap (below_desc (as_i64 chat_id) last) (same ∙ p.stored)
      ∙ below_desc-snoc (as_i64 chat_id) last m w.tables.messages
          (on_page (as_i64 chat_id) n m p.numbered p.chat_id_same room)
          (older n m w.tables.messages p.numbered valid.issued) in
    (
      _,
      list_up (record { last_id = none; limit = limit }) chat_id w up (omega arith),
      list_up (record { last_id = none; limit = suc limit }) chat_id v up' small
          ∙ ap (λ ms. ok (take (suc limit) ms)) shown,
    )
