-- ===== src/Tests/Notices.antt =====
-- Notifications at concrete inputs.
use chat.Base.{
  ℕ, as_u64, ◌≡◌, ◌≢◌, ◌⊎◌, refl, sym, ap, ◌∙◌, pos, codes, Text, Option, Bool, true, false, none,
  some, List, [], ◌∷◌, ◌++◌, All, ◌||◌, arith,
}
use chat.Samples.{talk, hello, carol}
use chat.Core.{Chat}
use chat.Server.Error.{ok}
use chat.Notify.Sets.{contains}
use chat.Notify.Notif.{
  Json, Notification, ChatUpdated, AppEvent, new_message, add_to_chat, load,
  get_affected_chat_user_ids,
}
use chat.Notify.Affected.{affected-is_member, load-IsUnchanged, is_member, IsUnchanged, IsKept}
use chat.Notify.Sse.{UserMap, Incoming, notified, listen, get, enter, sse_handler}
use chat.Notify.Sse.Subscribers.{sse_handler-IsEntered, IsEntered, enter-race}
use chat.Notify.Sse.Delivery.{listen-delivers, listen-IsLast, IsAddressed, IsSent}

-- `talk` with a third member
abbrev larger : Chat
larger = record talk { members = pos 1 ∷ pos 2 ∷ pos 3 ∷ [] }

-- and renamed, its members the other way round
abbrev renamed : Chat
renamed = record talk { name = some (codes "t"); members = pos 2 ∷ pos 1 ∷ [] }

abbrev some_json : Json
some_json = record {
  chat_updated =
      λ payload. ok (record { op = codes "UPDATE"; old = some talk; new = some renamed });
  chat_message_created = λ payload. ok (record { message = hello; members = pos 1 ∷ pos 2 ∷ [] });
}

affected-is_member_example :
    (IsKept (some talk) (some larger) × (get_affected_chat_user_ids (some talk) (some larger) ≡ []))
    ⊎ ((¬ IsKept (some talk) (some larger))
        × ((x : ℕ)
            → contains x (get_affected_chat_user_ids (some talk) (some larger))
              ≡ (is_member x (some larger) || is_member x (some talk))))
affected-is_member_example = affected-is_member (some talk) (some larger)

renamed-IsUnchanged : IsUnchanged (some talk) (some renamed)
unfolding contains chat.Base.as_u64
renamed-IsUnchanged x = ground arith

load-IsUnchanged_example :
    load some_json (codes "chat_updated") (codes "{}")
    ≡ ok (record { user_ids = []; event = add_to_chat renamed })
load-IsUnchanged_example =
    load-IsUnchanged some_json (codes "{}") talk renamed refl renamed-IsUnchanged

abbrev users : UserMap
users = (1, 10) ∷ (2, 20) ∷ []

abbrev told : Notification
told = record { user_ids = 1 ∷ 2 ∷ []; event = new_message hello }

hello_loaded : load some_json (codes "chat_message_created") (codes "{}") ≡ ok told
unfolding load chat.Notify.Notif.of_chat_message_created chat.Notify.Sets.collect
    chat.Notify.Sets.insert contains chat.Base.as_u64
hello_loaded = refl

abbrev rest : List (Incoming × UserMap)
rest = (notified (codes "chat_updated") (codes "{}"), users) ∷ []

listen-delivers_example :
    (sends : List (ℕ × AppEvent)) × (listen some_json
        ((notified (codes "chat_message_created") (codes "{}"), users) ∷ rest)
      ≡ sends ++ listen some_json rest)
    × All (IsAddressed users told.event told.user_ids) sends
    × ((user_id tx : ℕ)
        → contains user_id told.user_ids ≡ true
        → get user_id users ≡ some tx
        → IsSent tx told.event sends)
listen-delivers_example =
    listen-delivers some_json (codes "chat_message_created") (codes "{}") users rest told
      hello_loaded

unknown_fails : (n : Notification) → load some_json (codes "other") (codes "{}") ≢ ok n
unfolding load
unknown_fails n e = cc e

listen-IsLast_example :
    listen some_json (rest ++ (notified (codes "other") (codes "{}"), users) ∷ rest)
    ≡ listen some_json rest
listen-IsLast_example =
    listen-IsLast some_json rest rest (notified (codes "other") (codes "{}")) users unknown_fails

abbrev carols : UserMap
carols = (3, 30) ∷ []

sse_handler-IsEntered_example : IsEntered (as_u64 carol.id) carols (sse_handler carol 31 carols)
sse_handler-IsEntered_example = sse_handler-IsEntered carol 31 carols

tens_unused : (v : ℕ) → get v carols ≢ some 10
unfolding get
tens_unused v e = ground arith

abbrev ten : ℕ
ten = 10

abbrev twenty : ℕ
twenty = 20

tens_differ : ten ≢ twenty
tens_differ e = omega (arith, e)

enter-race_example :
    (get 1 (enter 1 20 none (enter 1 10 none carols).1).1 ≡ some 20)
    × ((v : ℕ) → get v (enter 1 20 none (enter 1 10 none carols).1).1 ≢ some 10)
enter-race_example = enter-race 1 10 20 carols tens_differ tens_unused
