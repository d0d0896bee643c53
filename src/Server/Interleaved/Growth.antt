-- ===== src/Server/Interleaved/Growth.antt =====
-- What every statement of chat_server/src/services does to the table of users: rows are only added, and
-- no email twice.
use chat.Base.{
  ◌+◌, ℤ, ◌≡◌, refl, sym, subst, inl, inr, Bool, true, false, ◌||◌, Text, text_eq, text_eq_iff,
  Option, none, some, List, [], ◌∷◌, ◌++◌, any, has_key, has_key-append, arith, Option-cases,
  Bool-cases, eq_ℤ, All-weaken,
}
use chat.Core.{ChatType}
use chat.Server.Models.{UserRow, Workspace}
use chat.Server.World.{Env, Tables}
use chat.Server.Sql.Rows.{nextval}
use chat.Server.Sql.Users.{insert_user, put_user}
use chat.Server.Sql.Chats.{insert_chat, put_chat, update_chat, put_name, delete_chat, notify}
use chat.Server.Sql.Messages.{insert_message, put_message, announce}
use chat.Server.Invariant.{user_key, IsRoster}

-- every user of `t` is one of `u`
abbrev pub Grows : Tables → Tables → Type 0
Grows t u = (z : ℤ) → has_key user_key z t.users ≡ true → has_key user_key z u.users ≡ true

pub has_email : Text → List UserRow → Bool
has_email e = any (λ u. text_eq u.email e)

-- no two users with the same email
abbrev pub IsOnceEmail : List UserRow → Type 0
IsOnceEmail [] = Unit
IsOnceEmail (u ∷ us) = (any (λ x. text_eq x.email u.email) us ≡ false) × IsOnceEmail us

any_email-snoc :
    (r : UserRow) (e : Text) (us : List UserRow)
    → any (λ x. text_eq x.email e) us ≡ false
    → text_eq r.email e ≡ false
    → any (λ x. text_eq x.email e) (us ++ r ∷ []) ≡ false
any_email-snoc r e [] h n = ground arith
any_email-snoc r e (u ∷ us) h n = ground (arith, any_email-snoc r e us)

IsOnceEmail-snoc :
    (r : UserRow) (us : List UserRow)
    → IsOnceEmail us
    → any (λ x. text_eq x.email r.email) us ≡ false
    → IsOnceEmail (us ++ r ∷ [])
IsOnceEmail-snoc r [] o h = (refl, tt)
IsOnceEmail-snoc r (u ∷ us) o h = ground (
  arith,
  IsOnceEmail-snoc r us o.1,
  any_email-snoc r u.email us o.0,
  text_eq_iff u.email r.email,
  text_eq_iff r.email u.email,
)

-- what is asked of the users after a statement
pub record IsGrown (t u : Tables) : Type 0 where
  pub grows : Grows t u
  pub once : IsOnceEmail t.users → IsOnceEmail u.users

pub IsGrown-same : (t u : Tables) → u.users ≡ t.users → IsGrown t u
IsGrown-same t u e = record {
  grows = λ z h. subst (λ us. has_key user_key z us ≡ true) (sym e) h;
  once = λ o. subst IsOnceEmail (sym e) o;
}

clash :
    (r : UserRow) (us : List UserRow)
    → any (λ u. text_eq u.email r.email || eq_ℤ u.id r.id) us ≡ false
    → any (λ x. text_eq x.email r.email) us ≡ false
clash r [] h = refl
clash r (u ∷ us) h = ground (arith, clash r us)

IsGrown-added :
    (t u : Tables) (r : UserRow)
    → u.users ≡ t.users ++ r ∷ []
    → any (λ x. text_eq x.email r.email) t.users ≡ false
    → IsGrown t u
IsGrown-added t u r e new = record {
  grows = λ z h.
      subst (λ us. has_key user_key z us ≡ true) (sym e)
        (has_key-append user_key z t.users (r ∷ []) h);
  once = λ o. subst IsOnceEmail (sym e) (IsOnceEmail-snoc r t.users o new);
}

put_user-IsGrown : (o : Option UserRow) (t : Tables) → IsGrown t (put_user o t).1
unfolding put_user
put_user-IsGrown none t = IsGrown-same t t refl
put_user-IsGrown (some r) t =
    elim (Bool-cases (any (λ u. text_eq u.email r.email || eq_ℤ u.id r.id) t.users)) [
      | inl taken ↦ rw taken (IsGrown-same t t refl)
      | inr free ↦
          rw free (elim (Bool-cases (any (λ (w : Workspace). eq_ℤ w.id r.ws_id) t.workspaces)) [
            | inl home ↦ rw home (
                IsGrown-added t (record t { users = t.users ++ r ∷ [] }) r refl
                  (clash r t.users free))
            | inr homeless ↦ rw homeless (IsGrown-same t t refl)
          ])
    ]

pub insert_user-IsGrown :
    (ws_id : ℤ) (email fullname hash : Text) (t : Tables)
    → IsGrown t (insert_user ws_id email fullname hash t).1
unfolding insert_user
insert_user-IsGrown ws_id email fullname hash t = elim (Option-cases (nextval t.users_seq)) [
  | inl spent ↦ rw (spent, insert_user) (IsGrown-same t t refl)
  | inr (id, issued) ↦
      rw (issued, insert_user)
        (from _ (put_user-IsGrown _ (record t { users_seq = t.users_seq + 1 })))
]
  where
    from : (u : Tables) → IsGrown (record t { users_seq = t.users_seq + 1 }) u → IsGrown t u
    from u g = record { grows = g.grows; once = g.once }

pub insert_chat-users :
    (env : Env) (ws_id : ℤ) (name : Option Text) (type : ChatType) (members : List ℤ) (t : Tables)
    → (insert_chat env ws_id name type members t).1.users ≡ t.users
unfolding insert_chat put_chat notify
insert_chat-users env ws_id name type members t = ground arith

pub update_chat-users :
    (env : Env) (name : Option Text) (id : ℤ) (t : Tables)
    → (update_chat env name id t).1.users ≡ t.users
unfolding update_chat put_name notify
update_chat-users env name id t = ground arith

pub delete_chat-users : (env : Env) (id : ℤ) (t : Tables) → (delete_chat env id t).1.users ≡ t.users
unfolding delete_chat notify
delete_chat-users env id t = ground arith

pub insert_message-users :
    (env : Env) (chat_id sender_id : ℤ) (content : Text) (files : List Text) (t : Tables)
    → (insert_message env chat_id sender_id content files t).1.users ≡ t.users
unfolding insert_message put_message announce
insert_message-users env chat_id sender_id content files t = ground arith

pub IsRoster-Grows :
    (t u : Tables) (members : List ℤ)
    → Grows t u
    → IsRoster t.users members
    → IsRoster u.users members
IsRoster-Grows t u members g r = record {
  known = All-weaken _ (λ z. has_key user_key z u.users ≡ true) g members r.known;
  once = r.once;
  enough = r.enough;
}
