-- ===== src/Server/Invariant/Chats.antt =====
-- The invariant and the statements on chats of chat_server/src/services/chat.rs.
use chat.Base.{
  ℕ, ◌+◌, ◌≡◌, refl, ◌∙◌, ℤ, eq_ℤ, eq_ℤ_iff, Text, true, false, Option, none, some, List, [], ◌∷◌,
  ◌++◌, map, select, All, All-append, All-select, arith, has_key, has_key-append, DistinctKeys,
  DistinctKeys-snoc, DistinctKeys-select, All-weaken, inl, inr, Bool-cases, Option-cases,
}
use chat.Core.{Chat, ChatType, Message}
use chat.Server.World.{Tables, Env, Notice}
use chat.Server.Sql.Chats.{
  insert_chat, put_chat, chat_row, notify, update_chat, put_name, rename, delete_chat, not_chat,
  not_in_chat, chat_by_id,
}
use chat.Server.Sql.Rows.{nextval, fit_null, sendable}
use chat.Server.Invariant.{IsValid, IsRoster, IsIssued, workspace_key, chat_key, message_key}

-- the part of the invariant that is about chats and messages
IsValid-chats :
    (t : Tables) (cs : List Chat) (ms : List Message) (ns : List Notice) (n : ℕ)
    → IsValid t
    → DistinctKeys chat_key cs
    → DistinctKeys message_key ms
    → All (λ c. IsRoster t.users c.members) cs
    → All (λ c. has_key workspace_key c.ws_id t.workspaces ≡ true) cs
    → All (λ m. has_key chat_key m.chat_id cs ≡ true) ms
    → All (λ m. IsIssued t.messages_seq m.id) ms
    → IsValid (record t { chats = cs; messages = ms; notices = ns; chats_seq = n })
IsValid-chats t cs ms ns n v chats_once messages_once rosters homes threads issued = record {
  users_once = v.users_once;
  chats_once = chats_once;
  messages_once = messages_once;
  rosters = rosters;
  owners = v.owners;
  homes = homes;
  threads = threads;
  issued = issued;
}

IsValid-chats_seq : (t : Tables) (n : ℕ) → IsValid t → IsValid (record t { chats_seq = n })
IsValid-chats_seq t n v =
    IsValid-chats t t.chats t.messages t.notices n v v.chats_once v.messages_once v.rosters v.homes
      v.threads v.issued

-- Whether or not the notification can be sent, one of the two tables is left.
notify-IsValid :
    (env : Env) (n : Notice) (c : Chat) (done t : Tables)
    → IsValid (record done { notices = t.notices ++ n ∷ [] })
    → IsValid t
    → IsValid (notify env n c done t).1
unfolding notify
notify-IsValid env n c done t a b = elim (Bool-cases (sendable env n)) [
  | inl sent ↦ rw sent a
  | inr refused ↦ rw refused b
]

threads-append :
    (cs : List Chat) (c : Chat) (ms : List Message)
    → All (λ m. has_key chat_key m.chat_id cs ≡ true) ms
    → All (λ m. has_key chat_key m.chat_id (cs ++ c ∷ []) ≡ true) ms
threads-append cs c ms h =
    All-weaken (λ m. has_key chat_key m.chat_id cs ≡ true) _
      (λ m k. has_key-append chat_key m.chat_id cs (c ∷ []) k) ms h

put_chat-IsValid :
    (env : Env) (t : Tables) (n : ℕ) (o : Option Chat)
    → IsValid t
    → ((c : Chat) → o ≡ some c → IsRoster t.users c.members)
    → IsValid (put_chat env o (record t { chats_seq = n })).1
unfolding put_chat
put_chat-IsValid env t n none v r = IsValid-chats_seq t n v
put_chat-IsValid env t n (some c) v r = elim (Bool-cases (has_key chat_key c.id t.chats)) [
  | inl taken ↦ rw taken (IsValid-chats_seq t n v)
  | inr free ↦ rw free (elim (Bool-cases (has_key workspace_key c.ws_id t.workspaces)) [
    | inl known ↦ rw known (
        notify-IsValid env _ c _ _
          (IsValid-chats t (t.chats ++ c ∷ []) t.messages _ n v
            (DistinctKeys-snoc chat_key c t.chats v.chats_once free) v.messages_once
            (All-append _ t.chats (c ∷ []) v.rosters (r c refl, tt))
            (All-append _ t.chats (c ∷ []) v.homes (known, tt))
            (threads-append t.chats c t.messages v.threads) v.issued)
          (IsValid-chats_seq t n v))
    | inr unknown ↦ rw unknown (IsValid-chats_seq t n v)
  ])
]

chat_row-members :
    (ws_id : ℤ) (name : Option Text) (type : ChatType) (members : List ℤ) (now : ℕ) (id : ℤ)
    (c : Chat)
    → chat_row ws_id name type members now id ≡ some c
    → c.members ≡ members
unfolding chat_row
chat_row-members ws_id name type members now id c e = ground arith

-- A new chat of known members, or none, keeps the invariant.
pub insert_chat-IsValid :
    (env : Env) (ws_id : ℤ) (name : Option Text) (type : ChatType) (members : List ℤ) (t : Tables)
    → IsValid t
    → IsRoster t.users members
    → IsValid (insert_chat env ws_id name type members t).1
unfolding insert_chat
insert_chat-IsValid env ws_id name type members t v r = elim (Option-cases (nextval t.chats_seq)) [
  | inl spent ↦ rw (spent, insert_chat) v
  | inr (id, issued) ↦
      rw (issued, insert_chat)
        (put_chat-IsValid env t (t.chats_seq + 1) _ v
          (λ c e. rw (chat_row-members ws_id name type members t.clock id c e) r))
]

module _ (id : ℤ) (name : Option Text) where
  has_key-rename :
      (z : ℤ) (cs : List Chat)
      → has_key chat_key z (map (rename id name) cs) ≡ has_key chat_key z cs
  has_key-rename z [] = refl
  has_key-rename z (c ∷ cs) = ground (arith, has_key-rename z cs)

  DistinctKeys-rename :
      (cs : List Chat) → DistinctKeys chat_key cs → DistinctKeys chat_key (map (rename id name) cs)
  DistinctKeys-rename [] d = tt
  DistinctKeys-rename (c ∷ cs) d =
      ground (arith, has_key-rename c.id cs, DistinctKeys-rename cs d.1)

  All-rename :
      (P : ℤ → List ℤ → Type 0) (cs : List Chat)
      → All (λ c. P c.ws_id c.members) cs
      → All (λ c. P c.ws_id c.members) (map (rename id name) cs)
  All-rename P [] h = tt
  All-rename P (c ∷ cs) h = elim (Bool-cases (eq_ℤ c.id id)) [
    | inl same ↦ rw same (h.0, All-rename P cs h.1)
    | inr other ↦ rw other (h.0, All-rename P cs h.1)
  ]

threads-rename :
    (id : ℤ) (name : Option Text) (cs : List Chat) (ms : List Message)
    → All (λ m. has_key chat_key m.chat_id cs ≡ true) ms
    → All (λ m. has_key chat_key m.chat_id (map (rename id name) cs) ≡ true) ms
threads-rename id name cs ms h =
    All-weaken (λ m. has_key chat_key m.chat_id cs ≡ true) _
      (λ m k. has_key-rename id name m.chat_id cs ∙ k) ms h

put_name-IsValid :
    (env : Env) (o : Option (Option Text)) (id : ℤ) (c : Chat) (t : Tables)
    → IsValid t
    → IsValid (put_name env o id c t).1
unfolding put_name
put_name-IsValid env none id c t v = v
put_name-IsValid env (some n) id c t v =
    notify-IsValid env _ _ _ t
      (IsValid-chats t (map (rename id n) t.chats) t.messages _ t.chats_seq v
        (DistinctKeys-rename id n t.chats v.chats_once) v.messages_once
        (All-rename id n (λ _ members. IsRoster t.users members) t.chats v.rosters)
        (All-rename id n (λ ws_id _. has_key workspace_key ws_id t.workspaces ≡ true) t.chats
          v.homes)
        (threads-rename id n t.chats t.messages v.threads) v.issued)
      v

pub update_chat-IsValid :
    (env : Env) (name : Option Text) (id : ℤ) (t : Tables)
    → IsValid t
    → IsValid (update_chat env name id t).1
unfolding update_chat
update_chat-IsValid env name id t v = elim (Option-cases (chat_by_id id t.chats)) [
  | inl missing ↦ rw (missing, update_chat) v
  | inr (c, found) ↦ rw (found, update_chat) (put_name-IsValid env (fit_null 64 name) id c t v)
]

has_key-not_chat :
    (z id : ℤ) (cs : List Chat)
    → eq_ℤ z id ≡ false
    → has_key chat_key z cs ≡ true
    → has_key chat_key z (select (not_chat id) cs) ≡ true
has_key-not_chat z id [] n h = h
has_key-not_chat z id (c ∷ cs) n h =
    ground (arith, has_key-not_chat z id cs n, eq_ℤ_iff c.id id, eq_ℤ_iff c.id z, eq_ℤ_iff z id)

-- The messages left belong to chats that are left: the cascade.
threads-delete :
    (id : ℤ) (cs : List Chat) (ms : List Message)
    → All (λ m. has_key chat_key m.chat_id cs ≡ true) ms
    → All
        (λ m. has_key chat_key m.chat_id (select (not_chat id) cs) ≡ true)
        (select (not_in_chat id) ms)
threads-delete id cs [] h = tt
threads-delete id cs (m ∷ ms) h =
    ground (arith, threads-delete id cs ms h.1, has_key-not_chat m.chat_id id cs)

pub delete_chat-IsValid :
    (env : Env) (id : ℤ) (t : Tables) → IsValid t → IsValid (delete_chat env id t).1
unfolding delete_chat
delete_chat-IsValid env id t v = elim (Option-cases (chat_by_id id t.chats)) [
  | inl missing ↦ rw (missing, delete_chat) v
  | inr (c, found) ↦
      rw (found, delete_chat)
        (notify-IsValid env _ c _ t
          (IsValid-chats t (select (not_chat id) t.chats) (select (not_in_chat id) t.messages) _
            t.chats_seq v (DistinctKeys-select chat_key (not_chat id) t.chats v.chats_once)
            (DistinctKeys-select message_key (not_in_chat id) t.messages v.messages_once)
            (All-select _ (not_chat id) t.chats v.rosters)
            (All-select _ (not_chat id) t.chats v.homes)
            (threads-delete id t.chats t.messages v.threads)
            (All-select _ (not_in_chat id) t.messages v.issued))
          v)
]
