-- ===== src/Tests/Tables.antt =====
-- Chats, users and the invariant on the small database.
use chat.Base.{
  ◌≡◌, refl, pos, codes, false, none, some, List, [], ◌∷◌, inr, arith, as_u64, as_i64, ◌≢◌, ◌<◌,
  is_any,
}
use chat.Samples.{some_env, few_rows, quiet, bob, talk}
use chat.Core.{Chat, User}
use chat.Server.Error.{ok}
use chat.Server.Models.{CreateUser, CreateChat}
use chat.Server.World.{World, refused, reply_lost, answered}
use chat.Server.Invariant.{IsValid, IsRoster}
use chat.Server.Invariant.Services.{IsLawful}
use chat.Server.Invariant.Runs.{
  serve_all, serve_all-IsValid, Op, create_chat, update_chat, delete_chat, create_message,
}
use chat.Server.Services.Chats
use chat.Server.Services.Users
use chat.Server.Services.Users.Signup.{create-IsRegistered, IsRegistered}
use chat.Server.Services.Users.Signin.{verify-user_by_email}
use chat.Server.Sql.Chats.{chat_by_id}
use chat.Server.Sql.Users.{user_by_email, user_returned}
use chat.Server.Services.Chats.Creation.{create-IsCreated, IsStored}
use chat.Server.Services.Chats.Kinds.{IsKind}
use chat.Server.Services.Chats.Guards.{foreign_workspace, delete-IsDeleted, IsDeleted}
use chat.Server.Services.Chats.Renaming.{update-IsRenamed, IsRenamed}
use chat.Server.Services.Chats.Membership.{is_chat_member-is_any}

pub some_env-IsLawful : IsLawful some_env
some_env-IsLawful = record { users_order = λ p us. refl; chats_order = λ p cs. refl }

pub few_rows-IsValid : IsValid few_rows
unfolding chat.Server.Sql.Workspaces.belongs chat.Server.Sql.Workspaces.user_by_id
few_rows-IsValid = record {
  users_once = (refl, (refl, tt));
  chats_once = (refl, tt);
  messages_once = (refl, (refl, tt));
  rosters =
      (record { known = (refl, (refl, tt)); once = (refl, (refl, tt)); enough = omega arith }, tt);
  owners = (inr refl, tt);
  homes = (refl, tt);
  threads = (refl, (refl, tt));
  issued = ((1, refl, omega arith), ((2, refl, omega arith), tt));
}

-- two users ask for a chat
abbrev pub asked : CreateChat
asked = record { name = none; members = pos 1 ∷ pos 2 ∷ []; public = false }

-- the chat that they get
abbrev pub made : Chat
made = record talk { id = pos 2; created_at = 7 }

-- the connection refuses the third statement, and loses the reply to the fourth
abbrev shaky : World
shaky = record quiet { link = answered ∷ answered ∷ refused ∷ reply_lost ∷ [] }

abbrev calls : List Op
calls =
    create_chat asked 1
    ∷ create_message (record { content = codes "hi"; files = [] }) 2 1
    ∷ update_chat (record { name = some (codes "talk") }) 1 2
    ∷ delete_chat 1 1
    ∷ []

serve_all-IsValid_example : IsValid (serve_all some_env (codes "/tmp") calls shaky).tables
serve_all-IsValid_example =
    serve_all-IsValid some_env (codes "/tmp") calls shaky some_env-IsLawful few_rows-IsValid

pub create-asked : (Chats.create some_env asked 1 quiet).0 ≡ ok made
unfolding Chats.create Chats.create_unless Chats.refusal chat.Server.World.◌>>=◌
    chat.Server.Services.Users.fetch_by_ids chat.Server.World.query
    chat.Server.Sql.Users.select_users_by_ids Chats.create_with chat.Server.Sql.Chats.insert_chat
    chat.Server.Sql.Rows.nextval chat.Server.Sql.Chats.put_chat chat.Server.Sql.Chats.chat_row
    chat.Server.Sql.Rows.fit_null as_i64 chat.Server.Sql.Chats.notify Chats.chat_type
create-asked = refl

create-IsCreated_example :
    IsStored []
      (as_i64 1)
      (Chats.chat_type none 2 false)
      (pos 1 ∷ pos 2 ∷ [])
      made
      (Chats.create some_env asked 1 quiet).1.tables
    × IsKind none 2 false made.type
    × IsRoster (Chats.create some_env asked 1 quiet).1.tables.users made.members
    × (8 < 2 → asked.name ≢ none)
create-IsCreated_example =
    create-IsCreated some_env asked 1 quiet made some_env-IsLawful few_rows-IsValid create-asked

pub talk_there : chat_by_id (as_i64 1) few_rows.chats ≡ some talk
unfolding chat_by_id as_i64
talk_there = refl

talk_foreign : as_u64 talk.ws_id ≢ 2
unfolding as_u64
talk_foreign e = omega (arith, e)

foreign_workspace_example :
    ((Chats.delete some_env 2 1 shaky).1.tables ≡ few_rows)
    × ((Chats.update some_env (record { name = some (codes "mine") }) 2 1 shaky).1.tables
        ≡ few_rows)
foreign_workspace_example =
    foreign_workspace some_env (record { name = some (codes "mine") }) 2 1 shaky talk talk_there
      talk_foreign

talk_own : as_u64 talk.ws_id ≡ 1
unfolding as_u64
talk_own = refl

delete-IsDeleted_example :
    ((Chats.delete some_env 1 1 quiet).0 ≡ ok talk)
    × IsDeleted (as_i64 1) few_rows (Chats.delete some_env 1 1 quiet).1.tables
delete-IsDeleted_example = delete-IsDeleted some_env 1 1 quiet talk refl talk_there talk_own refl

is_chat_member-is_any_example :
    Chats.is_chat_member 1 2 quiet ≡ (ok (is_any (as_i64 2) talk.members), quiet)
is_chat_member-is_any_example = is_chat_member-is_any 1 2 quiet talk refl (refl, tt) talk_there

pub bob_there : user_by_email (codes "b@x.org") few_rows.users ≡ some bob
unfolding user_by_email
bob_there = refl

verify-user_by_email_example :
    Users.verify some_env (record { email = codes "b@x.org"; password = codes "secret" }) quiet
    ≡ (ok (some (user_returned bob)), quiet)
verify-user_by_email_example =
    verify-user_by_email some_env (record { email = codes "b@x.org"; password = codes "secret" })
      quiet bob (codes "secret") refl bob_there refl

abbrev pub renamed : Chat
renamed = record talk { name = some (codes "talk") }

pub update-talk :
    (Chats.update some_env (record { name = some (codes "talk") }) 1 1 quiet).0 ≡ ok renamed
unfolding Chats.update chat.Server.World.◌>>=◌ Chats.get_by_id chat.Server.World.query
    chat.Server.Sql.Chats.select_chat Chats.within chat_by_id as_i64 as_u64
    chat.Server.Sql.Chats.update_chat chat.Server.Sql.Chats.put_name chat.Server.Sql.Rows.fit_null
    chat.Server.Sql.Rows.fit chat.Server.Sql.Rows.drop_chars chat.Server.Sql.Chats.notify
    chat.Server.Sql.Rows.take_chars
update-talk = refl

update-IsRenamed_example :
    (b : Chat) × (as_u64 b.ws_id ≡ 1)
    × IsRenamed
        (some (codes "talk"))
        (as_i64 1)
        b
        few_rows
        renamed
        (Chats.update some_env (record { name = some (codes "talk") }) 1 1 quiet).1.tables
update-IsRenamed_example =
    update-IsRenamed some_env (record { name = some (codes "talk") }) 1 1 quiet renamed update-talk

abbrev pub newcomer : CreateUser
newcomer = record {
  fullname = codes "Dan";
  email = codes "d@x.org";
  workspace = codes "acme";
  password = codes "pw";
}

abbrev pub dan : User
dan = record {
  id = pos 3;
  ws_id = pos 1;
  fullname = codes "Dan";
  email = codes "d@x.org";
  password_hash = none;
  created_at = 7;
}

pub create-newcomer : (Users.create some_env newcomer quiet).0 ≡ ok dan
unfolding Users.create chat.Server.World.◌>>=◌ Users.find_by_email chat.Server.World.query
    chat.Server.Sql.Users.select_user_by_email Users.create_unless user_by_email Users.create_new
    chat.Server.Services.Ws.find_by_name chat.Server.Sql.Workspaces.select_workspace_by_name
    Users.workspace_for chat.Server.Sql.Workspaces.workspace_by_name Users.hash_password
    chat.Server.Sql.Users.insert_user chat.Server.Sql.Rows.nextval chat.Server.Sql.Users.put_user
    chat.Server.Sql.Users.user_row chat.Server.Sql.Rows.fit Users.take_over
    chat.Server.Sql.Rows.drop_chars chat.Server.Sql.Rows.take_chars
create-newcomer = refl

create-IsRegistered_example :
    IsRegistered some_env newcomer few_rows.users dan
      (Users.create some_env newcomer quiet).1.tables.users
create-IsRegistered_example = create-IsRegistered some_env newcomer quiet dan create-newcomer
