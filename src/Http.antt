-- ===== src/Http.antt =====
-- Responses as the handlers build them, before they are serialized, and headers.
use chat.Base.{
  ℕ, ◌≡◌, Text, text_eq, text_eq_iff, Option, none, some, List, [], ◌∷◌, if◌then◌else◌, arith,
}
use chat.Core.{Chat, Message}
use chat.Server.Models.{ChatUser}

abbrev pub Headers : Type 0
Headers = List (Text × Text)

-- `headers.get(name)`
unfoldable pub get : Text → Headers → Option Text
get name [] = none
get name ((k, v) ∷ hs) = if text_eq k name then some v else get name hs

-- `headers.insert(name, value)`: the old value is replaced
unfoldable pub insert : Text → Text → Headers → Headers
insert name v [] = (name, v) ∷ []
insert name v ((k, u) ∷ hs) = if text_eq k name then (name, v) ∷ hs else (k, u) ∷ insert name v hs

pub get-insert_self : (name v : Text) (hs : Headers) → get name (insert name v hs) ≡ some v
unfolding get insert
get-insert_self name v [] = ground (arith, text_eq_iff name name)
get-insert_self name v ((k, u) ∷ hs) =
    ground (arith, text_eq_iff name name, get-insert_self name v hs)

pub data Body : Type 0 where
  text error auth_output file : Text → Body
  one_chat : Chat → Body
  all_chats : List Chat → Body
  one_message : Message → Body
  all_messages : List Message → Body
  all_users : List ChatUser → Body
  all_urls : List Text → Body
  -- a stream that fails when it is read
  unreadable : Body

pub record Response : Type 0 where
  pub status : ℕ
  pub headers : Headers
  pub body : Body

abbrev pub respond_with : ℕ → Body → Response
respond_with status body = record { status = status; headers = []; body = body }
