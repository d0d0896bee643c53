-- ===== src/Delivered.antt =====
-- A message on its way from `MsgService::create` (chat_server/src/services/msg.rs) through the
-- trigger `add_to_message` (migrations/20240629094732_triggers.sql) and the listener task
-- (notify_server/src/notif.rs) to the senders of its readers.
pub mod Chats
use mathlib.Core.Option.{some-injective}
use chat.Base.{
  ℕ, ◌≡◌, refl, sym, subst, ◌∙◌, as_i64, as_u64, Text, codes, some, List, [], ◌∷◌, ◌++◌, map, true,
  inl, inr,
}
use chat.Core.{Chat, Message}
use chat.Server.Error.{ok}
use chat.Server.Models.{CreateMessage}
use chat.Server.World.{Env, World, chat_message_created}
use chat.Server.Sql.Chats.{chat_by_id}
use chat.Server.Services.Msgs
use chat.Server.Services.Msgs.Posted.{create-IsPosted}
use chat.Notify.Sets.{contains}
use chat.Notify.Members.{contains-collect}
use chat.Notify.Notif.{AppEvent, new_message, Json, load, of_chat_message_created, ids_of}
use chat.Notify.Sse.{UserMap, Incoming, notified, get, listen}
use chat.Notify.Sse.Delivery.{IsSent, listen-delivers}

pub IsSent-append :
    (tx : ℕ) (e : AppEvent) (a b : List (ℕ × AppEvent)) → IsSent tx e a → IsSent tx e (a ++ b)
IsSent-append tx e [] b i = absurd i
IsSent-append tx e (s ∷ a) b (inl h) = inl h
IsSent-append tx e (s ∷ a) b (inr h) = inr (IsSent-append tx e a b h)

load-message :
    (json : Json) (payload : Text) (m : Message) (c : Chat)
    → json.chat_message_created payload ≡ ok (record { message = m; members = c.members })
    → load json (codes "chat_message_created") payload
      ≡ ok (record { user_ids = ids_of c.members; event = new_message m })
unfolding load of_chat_message_created
load-message json payload m c h = rw h refl

-- If `create` returns a message for the stored chat `c`, the trigger has sent one notification, of
-- the message and the chat's members; and where its payload is parsed as that, the listener task
-- sends the message to the sender of each member who then has one in the map.
pub create-listen :
    (env : Env) (base_dir : Text) (input : CreateMessage) (chat_id user_id : ℕ) (w : World)
    (m : Message) (c : Chat) (json : Json) (payload : Text) (users : UserMap)
    (stream : List (Incoming × UserMap)) (reader tx : ℕ)
    → (Msgs.create env base_dir input chat_id user_id w).0 ≡ ok m
    → chat_by_id (as_i64 chat_id) w.tables.chats ≡ some c
    → json.chat_message_created payload ≡ ok (record { message = m; members = c.members })
    → contains reader (map as_u64 c.members) ≡ true
    → get reader users ≡ some tx
    → ((Msgs.create env base_dir input chat_id user_id w).1.tables.notices
        ≡ w.tables.notices ++ chat_message_created m c.members ∷ [])
      × IsSent tx
          (new_message m)
          (listen json ((notified (codes "chat_message_created") payload, users) ∷ stream))
create-listen env base_dir input chat_id user_id w m c json payload users stream reader tx made
      there parsed member present =
    let posted = create-IsPosted env base_dir input chat_id user_id w m made in
    let (d, there', told) = posted.told in
    let same : d ≡ c = some-injective d c (sym there' ∙ there) in
    let (sends, whole, _, reaches) =
      listen-delivers json (codes "chat_message_created") payload users stream _
        (load-message json payload m c parsed) in
    (
      subst
          (λ (x : Chat).
            (Msgs.create env base_dir input chat_id user_id w).1.tables.notices
            ≡ w.tables.notices ++ chat_message_created m x.members ∷ [])
          same told,
      subst (IsSent tx (new_message m)) (sym whole) (
          IsSent-append tx (new_message m) sends (listen json stream)
            (reaches reader tx (contains-collect reader (map as_u64 c.members) ∙ member) present)),
    )
