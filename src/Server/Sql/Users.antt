-- ===== src/Server/Sql/Users.antt =====
-- The statements on the table `users`: chat_server/src/services/user.rs and ws.rs.
use chat.Base.{
  ◌+◌, ℤ, eq_ℤ, Text, text_eq, ◌||◌, Option, none, some, List, ◌∷◌, [], ◌++◌, map, if◌then◌else◌,
  find, select, any, is_any,
}
use chat.Core.{User, Time}
use chat.Server.Models.{UserRow, ChatUser, Workspace}
use chat.Server.Error.{
  unique_violation, foreign_key_violation, value_too_long, sequence_exhausted, ok, err,
}
use chat.Server.World.{Statement, Env}
use chat.Server.Sql.Rows.{fit, nextval, ◌>>=◌}

-- the row with the column `password_hash`
abbrev pub user_of : UserRow → User
user_of r = record {
  id = r.id;
  ws_id = r.ws_id;
  fullname = r.fullname;
  email = r.email;
  password_hash = some r.password_hash;
  created_at = r.created_at;
}

-- the row without it: `#[sqlx(default)]` gives None
abbrev pub user_returned : UserRow → User
user_returned r = record (user_of r) { password_hash = none }

abbrev pub chat_user_of : UserRow → ChatUser
chat_user_of r = record { id = r.id; fullname = r.fullname; email = r.email }

-- `find` under a name of its own, so that lemmas about it stay small
unfoldable pub user_by_email : Text → List UserRow → Option UserRow
user_by_email email = find (λ u. text_eq u.email email)

-- select … from users where email = $1
unfoldable pub select_user_by_email : Text → Statement (Option User)
select_user_by_email email t =
    (ok (elim (user_by_email email t.users) [ none ↦ none | some r ↦ some (user_of r) ]), t)

unfoldable pub user_row : ℤ → (email fullname password_hash : Text) → Time → ℤ → Option UserRow
user_row ws_id email fullname password_hash now id = do
  e ← fit 64 email
  f ← fit 64 fullname
  h ← fit 97 password_hash
  some (record {
    id = id;
    ws_id = ws_id;
    fullname = f;
    email = e;
    password_hash = h;
    created_at = now;
  })

-- the constraints: the primary key, the unique index on email, the reference to workspaces
unfoldable pub put_user : Option UserRow → Statement User
put_user none t = (err value_too_long, t)
put_user (some r) t =
    if any (λ u. text_eq u.email r.email || eq_ℤ u.id r.id) t.users
    then (err unique_violation, t)
    else if any (λ (w : Workspace). eq_ℤ w.id r.ws_id) t.workspaces
    then (ok (user_returned r), record t { users = t.users ++ r ∷ [] })
    else (err foreign_key_violation, t)

-- insert into users (ws_id, email, fullname, password_hash) values (…) returning …
unfoldable pub insert_user : ℤ → (email fullname password_hash : Text) → Statement User
insert_user ws_id email fullname password_hash t = elim (nextval t.users_seq) [
  | none ↦ (err sequence_exhausted, t)
  | some id ↦
      put_user (user_row ws_id email fullname password_hash t.clock id)
        (record t { users_seq = t.users_seq + 1 })
]

-- select id, fullname, email from users where id = ANY($1)
unfoldable pub select_users_by_ids : Env → List ℤ → Statement (List ChatUser)
select_users_by_ids env ids t =
    (ok (map chat_user_of (env.scan_users (select (λ u. is_any u.id ids) t.users))), t)

-- select id, fullname, email from users where ws_id = $1
unfoldable pub select_users_by_ws : Env → ℤ → Statement (List ChatUser)
select_users_by_ws env ws_id t =
    (ok (map chat_user_of (env.scan_users (select (λ u. eq_ℤ u.ws_id ws_id) t.users))), t)
