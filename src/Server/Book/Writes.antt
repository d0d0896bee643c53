-- ===== src/Server/Book/Writes.antt =====
-- The statements of chat_server/src/services on the book, each with its sequence, its constraints and
-- its trigger.
use chat.Base.{
  ℕ, ◌+◌, ℤ, eq_ℤ, eq_ℤ_iff, ◌≡◌, refl, sym, ap, subst, ◌∙◌, Text, false, Option, none, some, List,
  [], ◌∷◌, map, select, any, has_key, arith, codes, Bool-cases, Option-cases, inl, inr,
}
use chat.Core.{Chat, ChatType, Message}
use chat.Server.World.{Env, Tables, chat_updated, chat_message_created}
use chat.Server.Sql.Rows.{nextval, fit_null, sendable}
use chat.Server.Sql.Users.{insert_user}
use chat.Server.Sql.Workspaces.{insert_workspace, put_workspace, update_workspace_owner}
use chat.Server.Sql.Chats.{
  chat_by_id, insert_chat, chat_row, update_chat, put_name, rename, delete_chat, not_chat,
  not_in_chat, notify,
}
use chat.Server.Sql.Messages.{insert_message, put_message, announce}
use chat.Server.Services.Chats.Guards.{chats_gone, chats_kept, messages_kept}
use chat.Server.Services.Chats.Renaming.{rename-stored, rename-others}
use chat.Server.Invariant.{user_key, chat_key, IsRoster}
use chat.Server.Book.{book_of, put, Change, stayed, renamed, closed, posted}
use chat.Server.Book.Statements.{
  book_path, changed, Change-same, room_free, log-snoc, put_user-Change, put_chat-Change,
}

pub insert_user-Change :
    (ws_id : ℤ) (email fullname hash : Text) (t : Tables)
    → Change (book_of t) (book_of (insert_user ws_id email fullname hash t).1)
unfolding insert_user
insert_user-Change ws_id email fullname hash t = elim (Option-cases (nextval t.users_seq)) [
  | inl spent ↦ rw (spent, insert_user) stayed
  | inr (id, issued) ↦
      rw (issued, insert_user)
        (unfold book_of in put_user-Change (record t { users_seq = t.users_seq + 1 }) _)
]

pub insert_workspace-Change :
    (name : Text) (owner_id : ℤ) (t : Tables)
    → Change (book_of t) (book_of (insert_workspace name owner_id t).1)
unfolding insert_workspace put_workspace
insert_workspace-Change name owner_id t =
    Change-same t (insert_workspace name owner_id t).1 (ground arith) (ground arith) (ground arith)

pub update_workspace_owner-Change :
    (owner_id id : ℤ) (t : Tables)
    → Change (book_of t) (book_of (update_workspace_owner owner_id id t).1)
unfolding update_workspace_owner
update_workspace_owner-Change owner_id id t =
    Change-same t (update_workspace_owner owner_id id t).1 (ground arith) (ground arith)
      (ground arith)

chat_row-members :
    (ws_id : ℤ) (name : Option Text) (type : ChatType) (members : List ℤ) (now : ℕ) (id : ℤ)
    (c : Chat)
    → chat_row ws_id name type members now id ≡ some c
    → members ≡ c.members
unfolding chat_row
chat_row-members ws_id name type members now id c e = ground arith

pub insert_chat-Change :
    (env : Env) (ws_id : ℤ) (name : Option Text) (type : ChatType) (members : List ℤ) (t : Tables)
    → IsRoster t.users members
    → Change (book_of t) (book_of (insert_chat env ws_id name type members t).1)
unfolding insert_chat
insert_chat-Change env ws_id name type members t roster =
    elim (Option-cases (nextval t.chats_seq)) [
      | inl spent ↦ rw (spent, insert_chat) stayed
      | inr (id, issued) ↦
          rw (issued, insert_chat)
            (unfold book_of in
              put_chat-Change (record t { chats_seq = t.chats_seq + 1 }) env _
                (λ c e.
                  subst (IsRoster t.users) (chat_row-members ws_id name type members t.clock id c e)
                    roster))
    ]

module _ (t : Tables) (id : ℤ) (c : Chat) (there : chat_by_id id t.chats ≡ some c) where
  rooms_renamed :
      (n : Option Text) (z : ℤ)
      → put id (some (record c { name = n })) (λ x. chat_by_id x t.chats) z
        ≡ chat_by_id z (map (rename id n) t.chats)
  rooms_renamed n z = elim (Bool-cases (eq_ℤ id z)) [
    | inl same ↦ rw same (
        sym (rename-stored id n t.chats c there)
        ∙ ap (λ x. chat_by_id x (map (rename id n) t.chats)) ((eq_ℤ_iff id z).0 same))
    | inr other ↦
        rw other (sym (rename-others id n z t.chats (ground (arith, eq_ℤ_iff id z, eq_ℤ_iff z id))))
  ]

  put_name-Change :
      (env : Env) (o : Option (Option Text))
      → Change (book_of t) (book_of (put_name env o id c t).1)
  unfolding put_name notify
  put_name-Change env none = stayed
  put_name-Change env (some n) =
      elim (Bool-cases
        (sendable env (chat_updated (codes "UPDATE") (some c) (some (record c { name = n }))))) [
          | inr long ↦ rw long stayed
          | inl fits ↦ rw fits (
              unfold book_of in
              changed _ _ _ (renamed id c n there)
                (book_path _ _ (λ z. refl) (λ e. refl) (rooms_renamed n) (λ z. refl)))
        ]

  rooms_closed :
      (z : ℤ)
      → put id none (λ x. chat_by_id x t.chats) z ≡ chat_by_id z (select (not_chat id) t.chats)
  rooms_closed z = elim (Bool-cases (eq_ℤ id z)) [
    | inl same ↦ rw same (
        sym (
          room_free z (select (not_chat id) t.chats) (
            subst (λ x. has_key chat_key x (select (not_chat id) t.chats) ≡ false)
              ((eq_ℤ_iff id z).0 same) (chats_gone id t.chats))))
    | inr other ↦
        rw other (sym (chats_kept id z t.chats (ground (arith, eq_ℤ_iff id z, eq_ℤ_iff z id))))
  ]

  log_empty :
      (ms : List Message)
      → select (λ (m : Message). eq_ℤ m.chat_id id) (select (not_in_chat id) ms) ≡ []
  log_empty [] = refl
  log_empty (m ∷ ms) = ground (arith, log_empty ms)

  log_closed :
      (z : ℤ)
      → put id [] (λ x. select (λ (m : Message). eq_ℤ m.chat_id x) t.messages) z
        ≡ select (λ (m : Message). eq_ℤ m.chat_id z) (select (not_in_chat id) t.messages)
  log_closed z = elim (Bool-cases (eq_ℤ id z)) [
    | inl same ↦ rw same (
        sym (log_empty t.messages)
        ∙ ap (λ x. select (λ (m : Message). eq_ℤ m.chat_id x) (select (not_in_chat id) t.messages))
            ((eq_ℤ_iff id z).0 same))
    | inr other ↦
        rw other
          (sym (messages_kept id z t.messages (ground (arith, eq_ℤ_iff id z, eq_ℤ_iff z id))))
  ]

pub update_chat-Change :
    (env : Env) (name : Option Text) (id : ℤ) (t : Tables)
    → Change (book_of t) (book_of (update_chat env name id t).1)
unfolding update_chat
update_chat-Change env name id t = elim (Option-cases (chat_by_id id t.chats)) [
  | inl missing ↦ rw (missing, update_chat) stayed
  | inr (c, there) ↦ rw (there, update_chat) (put_name-Change t id c there env (fit_null 64 name))
]

pub delete_chat-Change :
    (env : Env) (id : ℤ) (t : Tables) → Change (book_of t) (book_of (delete_chat env id t).1)
unfolding delete_chat notify
delete_chat-Change env id t = elim (Option-cases (chat_by_id id t.chats)) [
  | inl missing ↦ rw (missing, delete_chat) stayed
  | inr (c, there) ↦
      elim (Bool-cases (sendable env (chat_updated (codes "DELETE") (some c) none))) [
        | inr long ↦ rw (there, delete_chat, long) stayed
        | inl fits ↦
            rw (there, delete_chat, fits)
              (unfold book_of in
                changed _ _ _ (closed id c there) (
                  book_path _ _ (λ z. refl) (λ e. refl) (rooms_closed t id c there)
                    (log_closed t id c there)))
      ]
]

put_message-Change :
    (env : Env) (m : Message) (t : Tables) → Change (book_of t) (book_of (put_message env m t).1)
unfolding put_message announce
put_message-Change env m t = elim (Bool-cases (any (λ (x : Message). eq_ℤ x.id m.id) t.messages)) [
  | inl taken ↦ rw taken stayed
  | inr free ↦ rw free (elim (Bool-cases (has_key user_key m.sender_id t.users)) [
    | inr unknown ↦ rw unknown stayed
    | inl known ↦ rw known (elim (Option-cases (chat_by_id m.chat_id t.chats)) [
      | inl missing ↦ rw missing stayed
      | inr (c, there) ↦ elim (Bool-cases (sendable env (chat_message_created m c.members))) [
        | inr long ↦ rw (there, long) stayed
        | inl fits ↦
            rw (there, fits)
              (unfold book_of in
                changed _ _ _ (posted m c known there)
                  (book_path _ _ (λ z. refl) (λ e. refl) (λ z. refl) (log-snoc m t.messages)))
      ]
    ])
  ])
]

pub insert_message-Change :
    (env : Env) (chat_id sender_id : ℤ) (content : Text) (files : List Text) (t : Tables)
    → Change (book_of t) (book_of (insert_message env chat_id sender_id content files t).1)
unfolding insert_message
insert_message-Change env chat_id sender_id content files t =
    elim (Option-cases (nextval t.messages_seq)) [
      | inl spent ↦ rw (spent, insert_message) stayed
      | inr (id, issued) ↦
          rw (issued, insert_message)
            (unfold book_of in
              put_message-Change env _ (record t { messages_seq = t.messages_seq + 1 }))
    ]
