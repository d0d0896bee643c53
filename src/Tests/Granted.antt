-- ===== src/Tests/Granted.antt =====
-- Requests that are granted, at concrete inputs.
use chat.Base.{
  false, List, map, ℕ, ◌≡◌, refl, pos, codes, none, some, [], ◌∷◌, inl, arith, as_i64, Text, Option,
  subst, text_eq, text_eq_iff,
}
use chat.Core.{User, Chat, Message}
use chat.Core.Jwt.{IsSound}
use chat.Samples.{some_env, some_app, few_rows, quiet, talk, alice, bob}
use chat.Http.{Response, respond_with, auth_output}
use chat.Server.Error.{ok, ok-injective}
use chat.Server.Models.{UserRow, CreateMessage}
use chat.Server.World.{World, Env}
use chat.Server.Sql.Rows.{fit}
use chat.Server.Sql.Rows
use chat.Server.Sql.Chats.{chat_by_id}
use chat.Server.Services.Chats
use chat.Server.Services.Chats.Kinds.{IsKind}
use chat.Server.Services.Chats.Granted.{create-chat_made, chat_made, with_chat}
use chat.Server.Services.Msgs
use chat.Server.Services.Msgs.Granted.{create-message_made, message_made, with_message}
use chat.Server.Services.Users
use chat.Server.Services.Ws
use chat.Server.Services.Ws.Listed.{fetch_all_chat_users-IsListing, IsListing}
use chat.Server.Sql.Users.{chat_user_of}
use chat.Server.Services.Users.Return.{verify-create, IsArgon2}
use chat.Server.Services.Users.Signup.{IsRegistered}
use chat.Server.Handlers.{App}
use chat.Server.Handlers.Accounts.{signup_handler}
use chat.Server.Handlers.Router.{UserRoute, route, with_token, user_handler}
use chat.Server.Handlers.Session.{signup_handler-admitted}
use chat.Notify.Sse.{UserMap, sse_handler}
use chat.Notify.Router.{listening, events}
use chat.Notify.Router
use chat.Server.Invariant.{IsRoster}
use chat.Server.Handlers.Accounts.{token_response}
use chat.Tests.Tokens.{narrow_keys, narrow_keys-IsSound}
use chat.Tests.Tables.{some_env-IsLawful, few_rows-IsValid, newcomer, dan, asked}

two_members : IsRoster few_rows.users (pos 1 ∷ pos 2 ∷ [])
two_members = record { known = (refl, (refl, tt)); once = (refl, (refl, tt)); enough = omega arith }

create-chat_made_example :
    (Chats.create some_env asked 1 quiet ≡ (
      ok (chat_made asked 1 none few_rows),
      record quiet { tables = with_chat (chat_made asked 1 none few_rows) few_rows },
    ))
    × IsKind none 2 false (chat_made asked 1 none few_rows).type
unfolding as_i64 chat.Server.Sql.Rows.fit_null
create-chat_made_example =
    create-chat_made some_env asked 1 quiet none some_env-IsLawful few_rows-IsValid refl two_members
      (inl (omega arith)) refl refl (omega arith) refl refl

abbrev word : CreateMessage
word = record { content = codes "hi"; files = [] }

talk_stored : chat_by_id (as_i64 1) few_rows.chats ≡ some talk
unfolding chat_by_id as_i64
talk_stored = refl

create-message_made_example : Msgs.create some_env (codes "/tmp") word 1 2 quiet ≡ (
  ok (message_made word 1 2 few_rows),
  record quiet { tables = with_message (message_made word 1 2 few_rows) talk few_rows },
)
unfolding as_i64
create-message_made_example =
    create-message_made some_env (codes "/tmp") word 1 2 quiet talk few_rows-IsValid refl
      (λ e. cc e) tt refl talk_stored (omega arith) refl

-- an argon2 that tells only the empty password from the others
abbrev digest : Text → Text
digest [] = codes "empty"
digest (c ∷ s) = codes "some"

abbrev hashing : Env
hashing = record some_env {
  argon2_hash = λ password salt. ok (digest password);
  argon2_verify = λ password parsed. text_eq (digest password) parsed;
}

hashing-IsArgon2 : IsArgon2 hashing
unfolding fit Rows.drop_chars Rows.take_chars
hashing-IsArgon2 = record {
  accepts = λ password salt hash e. (hash, refl, (text_eq_iff _ _).1 (ok-injective _ hash e));
  fits = λ password salt hash e.
      subst (λ h. fit 97 h ≡ some h) (ok-injective _ hash e) (digest_fits password);
}
  where
    digest_fits : (password : Text) → fit 97 (digest password) ≡ some (digest password)
    digest_fits [] = refl
    digest_fits (c ∷ s) = refl

registered :
    ((Users.create hashing newcomer quiet).0 ≡ ok dan)
    × ((Users.create hashing newcomer quiet).1.link ≡ [])
unfolding Users.create chat.Server.World.◌>>=◌ Users.find_by_email chat.Server.World.query
    chat.Server.Sql.Users.select_user_by_email Users.create_unless
    chat.Server.Sql.Users.user_by_email Users.create_new chat.Server.Services.Ws.find_by_name
    chat.Server.Sql.Workspaces.select_workspace_by_name Users.workspace_for
    chat.Server.Sql.Workspaces.workspace_by_name Users.hash_password
    chat.Server.Sql.Users.insert_user chat.Server.Sql.Rows.nextval chat.Server.Sql.Users.put_user
    chat.Server.Sql.Users.user_row chat.Server.Sql.Rows.fit Users.take_over
    chat.Server.Sql.Rows.drop_chars chat.Server.Sql.Rows.take_chars
registered = (refl, refl)

email_short : fit 64 newcomer.email ≡ some newcomer.email
unfolding fit chat.Server.Sql.Rows.drop_chars chat.Server.Sql.Rows.take_chars
email_short = refl

verify-create_example :
    Users.verify hashing
      (record { email = codes "d@x.org"; password = codes "pw" })
      (Users.create hashing newcomer quiet).1
    ≡ (ok (some dan), (Users.create hashing newcomer quiet).1)
verify-create_example =
    verify-create hashing newcomer quiet (Users.create hashing newcomer quiet).1 dan
      hashing-IsArgon2 email_short registered.0 refl registered.1

abbrev dans_app : App
dans_app = record some_app { keys = narrow_keys dan }

abbrev welcome : Response
welcome = respond_with 201 (auth_output (codes "token"))

abbrev joined : World
joined = record quiet {
  tables = record few_rows {
    users =
        alice
        ∷ bob
        ∷ record {
          id = pos 3;
          ws_id = pos 1;
          fullname = codes "Dan";
          email = codes "d@x.org";
          password_hash = codes "pw";
          created_at = 7;
        }
        ∷ [];
    users_seq = 4;
  };
  drawn = 1;
}

welcomed : signup_handler dans_app newcomer quiet ≡ (ok welcome, joined)
unfolding signup_handler token_response chat.Core.Jwt.sign Msgs.lift Users.create
    chat.Server.World.◌>>=◌ Users.find_by_email chat.Server.World.query
    chat.Server.Sql.Users.select_user_by_email Users.create_unless
    chat.Server.Sql.Users.user_by_email Users.create_new chat.Server.Services.Ws.find_by_name
    chat.Server.Sql.Workspaces.select_workspace_by_name Users.workspace_for
    chat.Server.Sql.Workspaces.workspace_by_name Users.hash_password
    chat.Server.Sql.Users.insert_user chat.Server.Sql.Rows.nextval chat.Server.Sql.Users.put_user
    chat.Server.Sql.Users.user_row chat.Server.Sql.Rows.fit Users.take_over
    chat.Server.Sql.Rows.drop_chars chat.Server.Sql.Rows.take_chars
welcomed = refl

signup_handler-admitted_example :
    (user : User) × (token : Text) × IsRegistered some_env newcomer few_rows.users user
      joined.tables.users
    × (welcome ≡ respond_with 201 (auth_output token))
    × ((query : Option Text) (request : UserRoute) (x : World)
        → route dans_app (with_token (some token) query request) x
          ≡ user_handler dans_app user request x)
    × ((html : Text) (query : Option Text) (fresh : ℕ) (users : UserMap)
        → Router.route (narrow_keys dan) html fresh (events (some token) query) users
          ≡ (listening (sse_handler user fresh users).0, (sse_handler user fresh users).1))
signup_handler-admitted_example =
    signup_handler-admitted dans_app newcomer quiet joined welcome (narrow_keys-IsSound dan)
      welcomed

fetch_all_chat_users-IsListing_example :
    (rows : List UserRow) × (Ws.fetch_all_chat_users 1 quiet ≡ (ok (map chat_user_of rows), quiet))
    × IsListing (as_i64 1) few_rows.users rows
fetch_all_chat_users-IsListing_example = fetch_all_chat_users-IsListing 1 quiet refl
