-- ===== src/Tests/Changes.antt =====
-- Changes of chats and who learns of them, at concrete inputs.
use chat.Base.{◌≡◌, refl, as_u64, codes, none, some, [], ◌∷◌, ◌++◌, map, true}
use chat.Samples.{some_env, quiet, talk, hello}
use chat.Server.Error.{ok}
use chat.Server.World.{chat_updated}
use chat.Server.Services.Chats
use chat.Delivered.Chats.{create_chat-listen, update-listen}
use chat.Notify.Sets.{contains}
use chat.Notify.Notif.{Json, new_chat}
use chat.Notify.Sse.{UserMap, notified, get, listen}
use chat.Notify.Sse.Delivery.{IsSent}
use chat.Tests.Tables.{
  some_env-IsLawful, few_rows-IsValid, asked, made, create-asked, renamed, update-talk, talk_there,
}

abbrev readers : UserMap
readers = (2, 20) ∷ []

-- the payloads are taken for what the trigger sent
abbrev of_insert : Json
of_insert = record {
  chat_updated = λ payload. ok (record { op = codes "INSERT"; old = none; new = some made });
  chat_message_created = λ payload. ok (record { message = hello; members = [] });
}

abbrev of_update : Json
of_update = record of_insert {
  chat_updated =
      λ payload. ok (record { op = codes "UPDATE"; old = some talk; new = some renamed });
}

bob_asked : contains 2 (map as_u64 asked.members) ≡ true
unfolding contains as_u64
bob_asked = refl

bob_listens : get 2 readers ≡ some 20
unfolding get
bob_listens = refl

create_chat-listen_example :
    ((Chats.create some_env asked 1 quiet).1.tables.notices
      ≡ [] ++ chat_updated (codes "INSERT") none (some made) ∷ [])
    × IsSent 20
        (new_chat made)
        (listen of_insert ((notified (codes "chat_updated") (codes "{}"), readers) ∷ []))
create_chat-listen_example =
    create_chat-listen some_env asked 1 quiet made of_insert (codes "{}") readers [] 2 20
      some_env-IsLawful few_rows-IsValid create-asked refl bob_asked bob_listens

update-listen_example :
    ((Chats.update some_env (record { name = some (codes "talk") }) 1 1 quiet).1.tables.notices
      ≡ [] ++ chat_updated (codes "UPDATE") (some talk) (some renamed) ∷ [])
    × (listen of_update ((notified (codes "chat_updated") (codes "{}"), readers) ∷ [])
        ≡ listen of_update [])
update-listen_example =
    update-listen some_env (record { name = some (codes "talk") }) 1 1 quiet talk renamed of_update
      (codes "{}") readers [] update-talk talk_there refl
