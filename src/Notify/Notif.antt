-- ===== src/Notify/Notif.antt =====
-- Notifications of the database: notify_server/src/notif.rs. serde_json is a parameter.
use chat.Base.{ℕ, ℤ, as_u64, Text, text_eq, codes, Option, none, some, List, [], map, if◌then◌else◌}
use chat.Core.{Chat, Message}
use chat.Server.Error.{Result, ok, err, panic}
use chat.Notify.Sets.{collect, union, equal}

pub data AppEvent : Type 0 where
  new_chat add_to_chat remove_from_chat : Chat → AppEvent
  new_message : Message → AppEvent

-- `event` is shared through an `Arc`, and never changed
pub record Notification : Type 0 where
  pub user_ids : List ℕ
  pub event : AppEvent

pub record ChatUpdated : Type 0 where
  pub op : Text
  pub old : Option Chat
  pub new : Option Chat

pub record ChatMessageCreated : Type 0 where
  pub message : Message
  pub members : List ℤ

-- `serde_json::from_str` at the two payload types, with the error as text
pub record Json : Type 0 where
  pub chat_updated : Text → Result Text ChatUpdated
  pub chat_message_created : Text → Result Text ChatMessageCreated

-- `members.iter().map(|v| *v as u64).collect()`
abbrev pub ids_of : List ℤ → List ℕ
ids_of members = collect (map as_u64 members)

-- `get_affected_chat_user_ids`
unfoldable pub get_affected_chat_user_ids : (old new : Option Chat) → List ℕ
get_affected_chat_user_ids (some old) (some new) =
    let old_user_ids = ids_of old.members in
    let new_user_ids = ids_of new.members in
    if equal old_user_ids new_user_ids then [] else union old_user_ids new_user_ids
get_affected_chat_user_ids (some old) none = ids_of old.members
get_affected_chat_user_ids none (some new) = ids_of new.members
get_affected_chat_user_ids none none = []

-- `AppEvent::…(chat.expect(…))`
abbrev pub expect : (Chat → AppEvent) → Option Chat → Result Text AppEvent
expect event none = panic
expect event (some c) = ok (event c)

-- the match on the operation
unfoldable pub event_of : ChatUpdated → Result Text AppEvent
event_of p =
    if text_eq p.op (codes "INSERT")
    then expect new_chat p.new
    else if text_eq p.op (codes "UPDATE")
    then expect add_to_chat p.new
    else if text_eq p.op (codes "DELETE")
    then expect remove_from_chat p.old
    else err (codes "Invalid operation")

abbrev pub addressed : List ℕ → Result Text AppEvent → Result Text Notification
addressed ids (ok e) = ok (record { user_ids = ids; event = e })
addressed ids (err e) = err e
addressed ids panic = panic

unfoldable pub of_chat_updated : Result Text ChatUpdated → Result Text Notification
of_chat_updated (ok p) = addressed (get_affected_chat_user_ids p.old p.new) (event_of p)
of_chat_updated (err e) = err e
of_chat_updated panic = panic

unfoldable pub of_chat_message_created : Result Text ChatMessageCreated → Result Text Notification
of_chat_message_created (ok p) =
    ok (record { user_ids = ids_of p.members; event = new_message p.message })
of_chat_message_created (err e) = err e
of_chat_message_created panic = panic

-- `Notification::load`
unfoldable pub load : Json → (rtype payload : Text) → Result Text Notification
load json rtype payload =
    if text_eq rtype (codes "chat_updated")
    then of_chat_updated (json.chat_updated payload)
    else if text_eq rtype (codes "chat_message_created")
    then of_chat_message_created (json.chat_message_created payload)
    else err (codes "Invalid notification type")
