-- ===== src/Notify/Sse.antt =====
-- The user map, its subscribers, and the task that sends: notify_server/src/sse.rs and
-- `setup_pg_listener` of notify_server/src/notif.rs. A sender is known by a number; what a
-- broadcast channel does with an event is tokio's.
pub mod Delivery
pub mod Subscribers
use chat.Core.{User}
use chat.Base.{ℕ, as_u64, Text, codes, Option, none, some, List, [], ◌∷◌, ◌++◌, ◌==◌, if◌then◌else◌}
use chat.Server.Error.{Result, ok, err, panic}
use chat.Notify.Notif.{
  AppEvent, new_chat, add_to_chat, remove_from_chat, new_message, Notification, Json, load,
}

-- `UserMap`: the sender of each user
abbrev pub UserMap : Type 0
UserMap = List (ℕ × ℕ)

unfoldable pub get : ℕ → UserMap → Option ℕ
get user_id [] = none
get user_id ((u, tx) ∷ users) = if u == user_id then some tx else get user_id users

unfoldable pub insert : ℕ → ℕ → UserMap → UserMap
insert user_id tx [] = (user_id, tx) ∷ []
insert user_id tx ((u, s) ∷ users) =
    if u == user_id then (user_id, tx) ∷ users else (u, s) ∷ insert user_id tx users

-- What `sse_handler` does once it has looked for the user's sender, with `fresh` the sender of the
-- channel that it makes: the sender that it listens to, and the map.
unfoldable pub enter : (user_id fresh : ℕ) → Option ℕ → UserMap → ℕ × UserMap
enter user_id fresh (some tx) users = (tx, users)
enter user_id fresh none users = (fresh, insert user_id fresh users)

-- `sse_handler`, run without another handler in between
unfoldable pub sse_handler : User → (fresh : ℕ) → UserMap → ℕ × UserMap
sse_handler user fresh users = enter (as_u64 user.id) fresh (get (as_u64 user.id) users) users

-- The name of an event in the stream, `sse_handler`.
unfoldable pub event_name : AppEvent → Text
event_name (new_chat _) = codes "NewChat"
event_name (add_to_chat _) = codes "AddToChat"
event_name (remove_from_chat _) = codes "RemoveFromChat"
event_name (new_message _) = codes "NewMessage"

-- One notification sent: the loop over `user_ids`, as the list of `tx.send(event)` calls.
unfoldable pub send_all : UserMap → AppEvent → List ℕ → List (ℕ × AppEvent)
send_all users event [] = []
send_all users event (user_id ∷ ids) = elim (get user_id users) [
  | none ↦ send_all users event ids
  | some tx ↦ (tx, event) ∷ send_all users event ids
]

-- What the stream of the listener gives: a notification's channel and payload, or an error. With it
-- the user map at that time.
pub data Incoming : Type 0 where
  notified : (rtype payload : Text) → Incoming
  broken : Incoming

abbrev pub after_load :
    Result Text Notification → UserMap → List (ℕ × AppEvent) → List (ℕ × AppEvent)
after_load (ok n) users rest = send_all users n.event n.user_ids ++ rest
after_load (err e) users rest = []
after_load panic users rest = []

-- the task of `setup_pg_listener`: it ends at a broken stream, at an error of `load`, at a panic
unfoldable pub listen : Json → List (Incoming × UserMap) → List (ℕ × AppEvent)
listen json [] = []
listen json ((broken, users) ∷ stream) = []
listen json ((notified rtype payload, users) ∷ stream) =
    let rest = listen json stream in after_load (load json rtype payload) users rest
