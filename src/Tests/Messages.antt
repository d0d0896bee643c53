-- ===== src/Tests/Messages.antt =====
-- Messages and files at concrete inputs.
use chat.Base.{
  false, inl, map, true, ◌+◌, ◌≡◌, ◌≢◌, refl, sym, pos, as_i64, as_u64, codes, Text, none, some,
  List, [], ◌∷◌, ◌++◌, arith, All,
}
use chat.Samples.{carol, talk, some_app, some_env, few_rows, quiet, again}
use chat.Core.{Message, User}
use chat.Server.Error.{ok, err}
use chat.Delivered.{create-listen}
use chat.Notify.Sets.{contains}
use chat.Notify.Notif.{Json, new_message}
use chat.Notify.Sse.{UserMap, get, listen, notified}
use chat.Notify.Sse.Delivery.{IsSent}
use chat.Server.Sql.Chats.{chat_by_id}
use chat.Server.Models.{CreateMessage, ListMessageOption}
use chat.Server.World.{World, file, dir, chat_message_created}
use chat.Server.Handlers.Files.{upload_field, part, put_file, store, file_handler, disposition}
use chat.Strings.{to_text}
use chat.Server.Handlers.Files.Downloads.{file_handler-upload_field, download}
use chat.Server.Handlers.Files.Uploads.{upload_field-check_file}
use chat.Server.ChatFile
use chat.Server.ChatFile.{ChatFile, from_str, url}
use chat.Server.ChatFile.RoundTrip.{IsUploaded, from_str-url}
use chat.Server.Services.Msgs
use chat.Server.Services.Msgs.Attached.{create-IsOnDisk, IsOnDisk}
use chat.Server.Services.Msgs.Posted.{create-IsPosted, IsPosted}
use chat.Server.Services.Msgs.Complete.{list-IsPage, IsPage}
use chat.Server.Services.Msgs.Pages.{list_pages_join}
use chat.Server.Services.Msgs.Shown.{list-create}
use chat.Tests.Tables.{few_rows-IsValid}

abbrev newest : ListMessageOption
newest = record { last_id = none; limit = 1 }

list-IsPage_example :
    (page : List Message) × ((Msgs.list newest 1 quiet).0 ≡ ok page)
    × IsPage (as_i64 1) (as_i64 (Msgs.last_id_or none)) 1 few_rows.messages page
list-IsPage_example = list-IsPage newest 1 quiet refl (refl, (refl, tt)) (omega arith)

first_page : (Msgs.list newest 1 quiet).0 ≡ ok ([] ++ again ∷ [])
unfolding Msgs.list chat.Server.World.query chat.Server.Sql.Messages.select_messages as_i64
    chat.Server.Sql.Messages.below_desc chat.Server.Sql.Rows.order_desc chat.Server.Sql.Rows.place
first_page = refl

list_pages_join_example :
    (p : List Message) × ((Msgs.list
        (record { last_id = some (as_u64 (pos 2)); limit = 3 })
        1
        quiet).0
      ≡ ok p)
    × ((Msgs.list (record newest { limit = 1 + 3 }) 1 quiet).0 ≡ ok ([] ++ again ∷ p))
list_pages_join_example =
    list_pages_join newest 1 3 quiet [] again refl (refl, (refl, tt)) (omega arith) (omega arith)
      first_page

abbrev stored_at : World
stored_at = record quiet { disk = (codes "/tmp/1/abc/def/0123.txt", file (codes "bytes")) ∷ [] }

abbrev with_file : CreateMessage
with_file = record { content = codes "look"; files = codes "/files/1/abc/def/0123.txt" ∷ [] }

abbrev sent : Message
sent = record {
  id = pos 3;
  chat_id = pos 1;
  sender_id = pos 1;
  content = codes "look";
  files = codes "/files/1/abc/def/0123.txt" ∷ [];
  created_at = 7;
}

create-sent : (Msgs.create some_env (codes "/tmp") with_file 1 1 stored_at).0 ≡ ok sent
unfolding Msgs.create Msgs.create_with chat.Server.World.◌>>◌ chat.Server.World.◌>>=◌
    Msgs.check_files Msgs.check_file Msgs.lift from_str chat.Server.ChatFile.parse_url
    chat.Strings.strip_prefix chat.Strings.split chat.Strings.parse_u64 chat.Strings.scan_some
    chat.Strings.scan Msgs.check_path chat.Server.ChatFile.path chat.Server.ChatFile.hash_to_path
    chat.Strings.split_at as_i64 Msgs.exists chat.Server.Sql.Chats.chat_by_id
    chat.Server.Sql.Messages.announce chat.Server.Sql.Messages.insert_message
    chat.Server.Sql.Messages.put_message chat.Server.Sql.Rows.nextval chat.Server.World.query
    chat.Strings.emit chat.Strings.join chat.Strings.to_text
create-sent = refl

sent_stored :
    few_rows.messages ++ sent ∷ []
    ≡ (Msgs.create some_env (codes "/tmp") with_file 1 1 stored_at).1.tables.messages
sent_stored =
    sym (create-IsPosted some_env (codes "/tmp") with_file 1 1 stored_at sent create-sent).stored

list-create_example :
    (page : List Message) × ((Msgs.list (record newest { limit = 1 }) 1 stored_at).0 ≡ ok page)
    × ((Msgs.list
          (record newest { limit = 2 })
          1
          (record quiet {
            tables = record few_rows { messages = few_rows.messages ++ sent ∷ [] };
          })).0
        ≡ ok (sent ∷ page))
list-create_example =
    list-create some_env (codes "/tmp") with_file 1 1 1 stored_at
      (record quiet { tables = record few_rows { messages = few_rows.messages ++ sent ∷ [] } }) sent
      few_rows-IsValid create-sent sent_stored (omega arith) (omega arith) refl refl

create-IsOnDisk_example :
    (with_file.content ≢ []) × All (IsOnDisk some_env (codes "/tmp") stored_at) with_file.files
create-IsOnDisk_example =
    create-IsOnDisk some_env (codes "/tmp") with_file 1 1 stored_at sent create-sent

abbrev uploaded : ChatFile
uploaded = record { ws_id = 1; ext = codes "txt"; hash = codes "abcdef0123" }

uploaded-IsUploaded : IsUploaded uploaded
uploaded-IsUploaded = record {
  fits = omega arith;
  long = omega arith;
  ascii = ground arith;
  hash_slash = ground arith;
  hash_dot = ground arith;
  ext_slash = ground arith;
  ext_dot = ground arith;
}

from_str-url_example : (u : Text) × (url uploaded ≡ some u) × (from_str u ≡ ok uploaded)
from_str-url_example = from_str-url uploaded uploaded-IsUploaded

create-IsPosted_example :
    IsPosted
      (as_i64 1)
      (as_i64 1)
      (codes "look")
      with_file.files
      few_rows
      sent
      (Msgs.create some_env (codes "/tmp") with_file 1 1 stored_at).1.tables
create-IsPosted_example =
    create-IsPosted some_env (codes "/tmp") with_file 1 1 stored_at sent create-sent

new-IsUploaded : IsUploaded (ChatFile.new some_env 1 (codes "a.txt") (codes "bytes"))
unfolding ChatFile.new chat.Server.ChatFile.extension chat.Strings.rsplit_once
new-IsUploaded = uploaded-IsUploaded

abbrev written : World
written = record quiet {
  disk =
      (codes "/tmp/1/abc/def/0123.txt", file (codes "bytes"))
      ∷ ([], dir)
      ∷ (codes "/tmp", dir)
      ∷ (codes "/tmp/1", dir)
      ∷ (codes "/tmp/1/abc", dir)
      ∷ (codes "/tmp/1/abc/def", dir)
      ∷ [];
}

upload_field-written :
    upload_field some_app 1 (part (some (codes "a.txt")) (some (codes "bytes"))) quiet
    ≡ (ok (codes "/files/1/abc/def/0123.txt" ∷ []), written)
unfolding upload_field put_file store chat.Server.Handlers.Files.write
    chat.Server.Handlers.Files.parents Msgs.exists chat.Server.World.◌>>=◌ chat.Server.World.◌>>◌
    ChatFile.new chat.Server.ChatFile.extension chat.Strings.rsplit_once url ChatFile.path
    chat.Server.ChatFile.hash_to_path chat.Strings.split_at chat.Strings.to_text chat.Strings.emit
    chat.Strings.join
upload_field-written = refl

upload_field-check_file_example :
    (u : Text) × ((codes "/files/1/abc/def/0123.txt" ∷ []) ≡ u ∷ [])
    × (Msgs.check_file some_env (codes "/tmp") u written ≡ (ok tt, written))
upload_field-check_file_example =
    upload_field-check_file some_app 1 (codes "a.txt") (codes "bytes") quiet written
      (codes "/files/1/abc/def/0123.txt" ∷ []) new-IsUploaded upload_field-written

abbrev colleague : User
colleague = record carol { ws_id = pos 1 }

abbrev at_path : Text
at_path = codes "/tmp/1/abc/def/0123.txt"

new-path :
    ChatFile.path some_app.base_dir (ChatFile.new some_env 1 (codes "a.txt") (codes "bytes"))
    ≡ some at_path
unfolding ChatFile.new chat.Server.ChatFile.extension chat.Strings.rsplit_once ChatFile.path
    chat.Server.ChatFile.hash_to_path chat.Strings.split_at chat.Strings.to_text chat.Strings.emit
    chat.Strings.join
new-path = refl

exists_before : Msgs.exists some_env at_path quiet ≡ (ok false, quiet)
unfolding Msgs.exists
exists_before = refl

file_handler-upload_field_example :
    (rest : Text) × ((codes "/files/1/abc/def/0123.txt" ∷ [])
      ≡ (codes "/files/" ++ (to_text 1 ++ b'/' ∷ rest)) ∷ [])
    × (file_handler some_app colleague 1 rest written ≡ (
      ok (download (codes "text/plain") (disposition (codes "0123.txt")) (codes "bytes")),
      written,
    ))
unfolding ChatFile.new chat.Server.ChatFile.extension chat.Strings.rsplit_once as_u64
file_handler-upload_field_example =
    file_handler-upload_field some_app 1 colleague (codes "a.txt") (codes "bytes") at_path
      (codes "text/plain") (disposition (codes "0123.txt")) quiet written
      (codes "/files/1/abc/def/0123.txt" ∷ []) new-IsUploaded (omega arith) refl new-path
      (inl exists_before) upload_field-written refl refl refl

-- the payload is taken for what the trigger sent
abbrev some_json : Json
some_json = record {
  chat_updated = λ payload. err (codes "missing field");
  chat_message_created = λ payload. ok (record { message = sent; members = talk.members });
}

abbrev readers : UserMap
readers = (2, 20) ∷ []

talk_stored : chat_by_id (as_i64 1) few_rows.chats ≡ some talk
unfolding chat_by_id as_i64
talk_stored = refl

bob_reads : contains 2 (map as_u64 talk.members) ≡ true
unfolding contains as_u64
bob_reads = refl

bob_listens : get 2 readers ≡ some 20
unfolding get
bob_listens = refl

create-listen_example :
    ((Msgs.create some_env (codes "/tmp") with_file 1 1 stored_at).1.tables.notices
      ≡ [] ++ chat_message_created sent talk.members ∷ [])
    × IsSent 20
        (new_message sent)
        (listen some_json ((notified (codes "chat_message_created") (codes "{}"), readers) ∷ []))
create-listen_example =
    create-listen some_env (codes "/tmp") with_file 1 1 stored_at sent talk some_json (codes "{}")
      readers [] 2 20 create-sent talk_stored refl bob_reads bob_listens
