-- ===== src/Delivered/Chats.antt =====
-- A change of a chat on its way from `ChatService` (chat_server/src/services/chat.rs) through the
-- trigger `add_to_chat` (migrations/20240629094732_triggers.sql) and the listener task
-- (notify_server/src/notif.rs) to the senders of its members.
use mathlib.Core.Option.{some-injective}
use chat.Base.{
  ℕ, ◌≡◌, refl, sym, ap, subst, ◌∙◌, as_i64, as_u64, Text, codes, none, some, List, [], ◌∷◌, ◌++◌,
  map, true,
}
use chat.Core.{Chat}
use chat.Server.Error.{ok}
use chat.Server.Models.{CreateChat, UpdateChat}
use chat.Server.World.{Env, World, chat_updated}
use chat.Server.Sql.Chats.{chat_by_id}
use chat.Server.Services.Chats
use chat.Server.Services.Chats.Creation.{create-IsCreated}
use chat.Server.Services.Chats.Renaming.{update-IsRenamed}
use chat.Server.Invariant.{IsValid}
use chat.Server.Invariant.Services.{IsLawful}
use chat.Notify.Sets.{contains}
use chat.Notify.Members.{contains-collect}
use chat.Notify.Affected.{load-IsUnchanged}
use chat.Notify.Notif.{
  AppEvent, new_chat, add_to_chat, Json, load, of_chat_updated, event_of, ids_of,
  get_affected_chat_user_ids,
}
use chat.Notify.Sse.{UserMap, Incoming, notified, get, listen, send_all}
use chat.Notify.Sse.Delivery.{IsSent, listen-delivers}
use chat.Delivered.{IsSent-append}

load-new_chat :
    (json : Json) (payload : Text) (c : Chat)
    → json.chat_updated payload ≡ ok (record { op = codes "INSERT"; old = none; new = some c })
    → load json (codes "chat_updated") payload
      ≡ ok (record { user_ids = ids_of c.members; event = new_chat c })
unfolding load of_chat_updated event_of get_affected_chat_user_ids
load-new_chat json payload c h = rw h refl

-- From a valid state, on a database that returns the rows asked for: if `create` returns a chat, the
-- trigger has sent one notification of it; and where its payload is parsed as that, the listener task
-- sends `NewChat` to the sender of each member asked for who then has one in the map.
pub create_chat-listen :
    (env : Env) (input : CreateChat) (ws_id : ℕ) (w : World) (c : Chat) (json : Json)
    (payload : Text) (users : UserMap) (stream : List (Incoming × UserMap)) (reader tx : ℕ)
    → IsLawful env
    → IsValid w.tables
    → (Chats.create env input ws_id w).0 ≡ ok c
    → json.chat_updated payload ≡ ok (record { op = codes "INSERT"; old = none; new = some c })
    → contains reader (map as_u64 input.members) ≡ true
    → get reader users ≡ some tx
    → ((Chats.create env input ws_id w).1.tables.notices
        ≡ w.tables.notices ++ chat_updated (codes "INSERT") none (some c) ∷ [])
      × IsSent tx
          (new_chat c)
          (listen json ((notified (codes "chat_updated") payload, users) ∷ stream))
create_chat-listen env input ws_id w c json payload users stream reader tx l v made parsed member
      present =
    let created = (create-IsCreated env input ws_id w c l v made).0 in
    let (sends, whole, _, reaches) =
      listen-delivers json (codes "chat_updated") payload users stream _
        (load-new_chat json payload c parsed) in
    let among : contains reader (map as_u64 c.members) ≡ true =
      ap (λ ms. contains reader (map as_u64 ms)) created.members_same ∙ member in
    (
      created.told,
      subst (IsSent tx (new_chat c)) (sym whole) (
          IsSent-append tx (new_chat c) sends (listen json stream)
            (reaches reader tx (contains-collect reader (map as_u64 c.members) ∙ among) present)),
    )

-- a notification for nobody
listen-nobody :
    (json : Json) (payload : Text) (users : UserMap) (stream : List (Incoming × UserMap))
    (event : AppEvent)
    → load json (codes "chat_updated") payload ≡ ok (record { user_ids = []; event = event })
    → listen json ((notified (codes "chat_updated") payload, users) ∷ stream) ≡ listen json stream
unfolding listen send_all
listen-nobody json payload users stream event h = rw h refl

-- If `update` returns a chat, the trigger has sent one notification of it, with the chat as it was;
-- and where its payload is parsed as that, the listener task sends nothing for it to anyone.
pub update-listen :
    (env : Env) (input : UpdateChat) (ws_id chat_id : ℕ) (w : World) (b c : Chat) (json : Json)
    (payload : Text) (users : UserMap) (stream : List (Incoming × UserMap))
    → (Chats.update env input ws_id chat_id w).0 ≡ ok c
    → chat_by_id (as_i64 chat_id) w.tables.chats ≡ some b
    → json.chat_updated payload ≡ ok (record { op = codes "UPDATE"; old = some b; new = some c })
    → ((Chats.update env input ws_id chat_id w).1.tables.notices
        ≡ w.tables.notices ++ chat_updated (codes "UPDATE") (some b) (some c) ∷ [])
      × (listen json ((notified (codes "chat_updated") payload, users) ∷ stream)
          ≡ listen json stream)
update-listen env input ws_id chat_id w b c json payload users stream made there parsed =
    let (d, _, r) = update-IsRenamed env input ws_id chat_id w c made in
    let same : d ≡ b = some-injective d b (sym r.there ∙ there) in
    let members : b.members ≡ c.members =
      sym (ap (λ (x : Chat). x.members) (r.same) ∙ ap (λ (x : Chat). x.members) same) in
    (
      subst
          (λ (x : Chat).
            (Chats.update env input ws_id chat_id w).1.tables.notices
            ≡ w.tables.notices ++ chat_updated (codes "UPDATE") (some x) (some c) ∷ [])
          same r.told,
      listen-nobody json payload users stream (add_to_chat c) (
          load-IsUnchanged json payload b c parsed
            (λ x. ap (λ ms. contains x (map as_u64 ms)) members)),
    )
