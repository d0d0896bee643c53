-- ===== src/Server/Interleaved/Requests.antt =====
-- Each call of chat_server/src/services while others run.
use chat.Base.{
  ℕ, ◌≡◌, refl, ap, ◌∙◌, Text, text_eq, pos, eq_ℤ, as_i64, as_u64, Bool-cases, inl, inr, Bool, true,
  false, Option, none, some, List, [], ◌∷◌, length, any, ◌==◌, ==_iff,
}
use chat.Core.{User, Chat, Message}
use chat.Server.Models.{CreateUser, CreateChat, UpdateChat, CreateMessage, Workspace, ChatUser}
use chat.Server.Error.{AppError, Result, ok, err, panic, ok-injective}
use chat.Server.World
use chat.Server.World.{resume, Env, World, Tables, M, Statement, query, ◌>>◌}
use chat.Server.ChatFile
use chat.Server.ChatFile.{ChatFile, from_str}
use chat.Server.Sql.Users.{insert_user, select_user_by_email, select_users_by_ids}
use chat.Server.Sql.Workspaces.{insert_workspace, update_workspace_owner, select_workspace_by_name}
use chat.Server.Sql.Chats.{insert_chat, update_chat, delete_chat, select_chat}
use chat.Server.Sql.Messages.{insert_message}
use chat.Server.Services.Users
use chat.Server.Services.Users.Signup.{insert_workspace-users, update_workspace_owner-users}
use chat.Server.Services.Chats
use chat.Server.Services.Msgs
use chat.Server.Services.Ws
use chat.Server.Invariant.{IsValid, IsRoster}
use chat.Server.Invariant.Users.{insert_user-IsValid}
use chat.Server.Invariant.Workspaces.{insert_workspace-IsValid, update_workspace_owner-IsValid}
use chat.Server.Invariant.Chats.{insert_chat-IsValid, update_chat-IsValid, delete_chat-IsValid}
use chat.Server.Invariant.Messages.{insert_message-IsValid}
use chat.Server.Invariant.Services.{IsLawful, found-IsRoster, refusal-none}
use chat.Server.Interleaved.{Call, returned}
use chat.Server.Interleaved.Calls
use chat.Server.Book.{book_of, Change}
use chat.Server.Book.Writes.{
  insert_user-Change, insert_workspace-Change, update_workspace_owner-Change, insert_chat-Change,
  update_chat-Change, delete_chat-Change, insert_message-Change,
}
use chat.Server.Interleaved.Safety.{Safe, Safe-look, Safe-query, Safe-read}
use chat.Server.Interleaved.Growth.{
  IsGrown-same, insert_user-IsGrown, insert_chat-users, update_chat-users, delete_chat-users,
  insert_message-users, IsRoster-Grows,
}

take_over-Safe : (ws : Workspace) (user : User) (t : Tables) → Safe (Calls.take_over ws user) t
unfolding Calls.take_over Ws.update_owner
take_over-Safe ws user t = elim (Bool-cases (eq_ℤ ws.owner_id (pos 0))) [
  | inl free ↦ rw free (
      Safe-query (update_workspace_owner (as_i64 (as_u64 user.id)) ws.id) (λ _. returned user) t
        (λ u v g. update_workspace_owner-IsValid _ _ u v.valid)
        (λ u. IsGrown-same u _ (update_workspace_owner-users _ _ u))
        (λ u v g. update_workspace_owner-Change _ _ u) (λ u a v g e. tt))
  | inr owned ↦ rw owned tt
]

as_i64-zero : as_i64 0 ≡ pos 0
unfolding as_i64
as_i64-zero = refl

workspace_for-Safe :
    (name : Text) (o : Option Workspace) (k : Workspace → Call User) (t : Tables)
    → ((ws : Workspace) (u : Tables) → Safe (k ws) u)
    → Safe (Calls.workspace_for name o k) t
unfolding Calls.workspace_for Ws.create
workspace_for-Safe name (some ws) k t h = h ws t
workspace_for-Safe name none k t h =
    Safe-query (insert_workspace name (as_i64 0)) k t
      (λ u v g. rw as_i64-zero (insert_workspace-IsValid name u v.valid))
      (λ u. IsGrown-same u _ (insert_workspace-users name (as_i64 0) u))
      (λ u v g. insert_workspace-Change name (as_i64 0) u) (λ u a v g e. h a _)

hash_password-tables :
    (env : Env) (password : Text) (w : World)
    → (Users.hash_password env password w).1.tables ≡ w.tables
unfolding Users.hash_password
hash_password-tables env password w = refl

create_new-Safe :
    (env : Env) (input : CreateUser) (t : Tables) → Safe (Calls.create_new env input) t
unfolding Calls.create_new Ws.find_by_name select_workspace_by_name
create_new-Safe env input t =
    Safe-read (select_workspace_by_name input.workspace) _ t (λ u. refl)
      (λ u found v g e. workspace_for-Safe input.workspace found _ u (λ ws u.
        Safe-look (Users.hash_password env input.password) _ u
          (hash_password-tables env input.password)
          (λ hash u.
            Safe-query (insert_user ws.id input.email input.fullname hash) _ u
              (λ x v g. insert_user-IsValid ws.id input.email input.fullname hash x v.valid)
              (λ x. insert_user-IsGrown ws.id input.email input.fullname hash x)
              (λ x v g. insert_user-Change ws.id input.email input.fullname hash x)
              (λ x user v g e. take_over-Safe ws user _))))

pub create_user-Safe :
    (env : Env) (input : CreateUser) (t : Tables) → Safe (Calls.create_user env input) t
unfolding Calls.create_user Calls.create_user_unless Users.find_by_email select_user_by_email
create_user-Safe env input t =
    Safe-read (select_user_by_email input.email) _ t (λ u. refl) (λ u o v g e. unless o u)
  where
    unless : (o : Option User) (u : Tables) → Safe (Calls.create_user_unless env input o) u
    unless none u = create_new-Safe env input u
    unless (some user) u = tt

create_chat_with-Safe :
    (env : Env) (input : CreateChat) (ws_id : ℕ) (found : List ChatUser) (t : Tables)
    → (length found ≡ length input.members → IsRoster t.users input.members)
    → Safe (Calls.create_chat_with env input ws_id found) t
unfolding Calls.create_chat_with
create_chat_with-Safe env input ws_id found t roster =
    let type = Chats.chat_type input.name (length input.members) input.public in
    elim (Bool-cases (length found == length input.members)) [
      | inr other ↦ rw other tt
      | inl same ↦ rw same (
          Safe-query (insert_chat env (as_i64 ws_id) input.name type input.members) returned t
            (λ u v g.
              insert_chat-IsValid env (as_i64 ws_id) input.name type input.members u v.valid
                (IsRoster-Grows t u input.members g (roster ((==_iff _ _).0 same))))
            (λ u.
              IsGrown-same u _
                (insert_chat-users env (as_i64 ws_id) input.name type input.members u))
            (λ u v g.
              insert_chat-Change env (as_i64 ws_id) input.name type input.members u
                (IsRoster-Grows t u input.members g (roster ((==_iff _ _).0 same))))
            (λ u c v g e. tt))
    ]

create_chat_unless-Safe :
    (env : Env) (input : CreateChat) (ws_id : ℕ) (o : Option AppError) (t : Tables)
    → IsLawful env
    → Chats.refusal input ≡ o
    → Safe (Calls.create_chat_unless env input ws_id o) t
unfolding Calls.create_chat_unless Users.fetch_by_ids select_users_by_ids
create_chat_unless-Safe env input ws_id (some e) t l r = tt
create_chat_unless-Safe env input ws_id none t l r =
    Safe-read (select_users_by_ids env input.members) _ t (λ u. refl)
      (λ u found v g e. create_chat_with-Safe env input ws_id found u (λ n.
        found-IsRoster env input.members u l (refusal-none input r) v.valid
          (ap length (ok-injective _ found e) ∙ n)))

pub create_chat-Safe :
    (env : Env) (input : CreateChat) (ws_id : ℕ) (t : Tables)
    → IsLawful env
    → Safe (Calls.create_chat env input ws_id) t
unfolding Calls.create_chat
create_chat-Safe env input ws_id t l = create_chat_unless-Safe env input ws_id _ t l refl

within-Safe :
    (ws_id : ℕ) (s : Statement Chat) (o : Option Chat) (t : Tables)
    → ((u : Tables) → IsValid u → IsValid (s u).1)
    → ((u : Tables) → (s u).1.users ≡ u.users)
    → ((u : Tables) → Change (book_of u) (book_of (s u).1))
    → Safe (Calls.within ws_id (query s) o) t
unfolding Calls.within
within-Safe ws_id s none t keeps same change = tt
within-Safe ws_id s (some c) t keeps same change = elim (Bool-cases (as_u64 c.ws_id == ws_id)) [
  | inr other ↦ rw other tt
  | inl own ↦ rw own (
      Safe-query s returned t (λ u v g. keeps u v.valid) (λ u. IsGrown-same u _ (same u))
        (λ u v g. change u) (λ u c v g e. tt))
]

pub update-Safe :
    (env : Env) (input : UpdateChat) (ws_id chat_id : ℕ) (t : Tables)
    → Safe (Calls.update env input ws_id chat_id) t
unfolding Calls.update Chats.get_by_id select_chat
update-Safe env input ws_id chat_id t =
    Safe-read (select_chat (as_i64 chat_id)) _ t (λ u. refl)
      (λ u o v g e.
        within-Safe ws_id (update_chat env input.name (as_i64 chat_id)) o u
          (update_chat-IsValid env input.name (as_i64 chat_id))
          (update_chat-users env input.name (as_i64 chat_id))
          (update_chat-Change env input.name (as_i64 chat_id)))

pub delete-Safe :
    (env : Env) (ws_id chat_id : ℕ) (t : Tables) → Safe (Calls.delete env ws_id chat_id) t
unfolding Calls.delete Chats.get_by_id select_chat
delete-Safe env ws_id chat_id t =
    Safe-read (select_chat (as_i64 chat_id)) _ t (λ u. refl)
      (λ u o v g e.
        within-Safe ws_id (delete_chat env (as_i64 chat_id)) o u
          (delete_chat-IsValid env (as_i64 chat_id)) (delete_chat-users env (as_i64 chat_id))
          (delete_chat-Change env (as_i64 chat_id)))

check_path-same : (env : Env) (o : Option Text) (w : World) → (Msgs.check_path env o w).1 ≡ w
unfolding Msgs.check_path Msgs.exists World.◌>>=◌
check_path-same env none w = refl
check_path-same env (some p) w = seen (any (λ e. text_eq e.0 (env.resolve p)) w.disk)
  where
    seen : (b : Bool) → (Msgs.unless_missing b w).1 ≡ w
    seen true = refl
    seen false = refl

check_file-same :
    (env : Env) (base_dir url : Text) (w : World) → (Msgs.check_file env base_dir url w).1 ≡ w
unfolding Msgs.check_file Msgs.lift World.◌>>=◌
check_file-same env base_dir url w = read (from_str url)
  where
    read :
        (r : Result AppError ChatFile)
        → (resume (λ f. Msgs.check_path env (ChatFile.path base_dir f)) (r, w)).1 ≡ w
    read (ok f) = check_path-same env (ChatFile.path base_dir f) w
    read (err e) = refl
    read panic = refl

check_files-Safe :
    (env : Env) (base_dir : Text) (urls : List Text) (k : Call Message) (t : Tables)
    → ((u : Tables) → Safe k u)
    → Safe (Calls.check_files env base_dir urls k) t
unfolding Calls.check_files
check_files-Safe env base_dir [] k t h = h t
check_files-Safe env base_dir (url ∷ urls) k t h =
    Safe-look (Msgs.check_file env base_dir url) _ t
      (λ w. ap (λ (x : World). x.tables) (check_file-same env base_dir url w))
      (λ _ u. check_files-Safe env base_dir urls k u h)

pub create_message-Safe :
    (env : Env) (base_dir : Text) (input : CreateMessage) (chat_id user_id : ℕ) (t : Tables)
    → Safe (Calls.create_message env base_dir input chat_id user_id) t
unfolding Calls.create_message Calls.create_message_with
create_message-Safe env base_dir input chat_id user_id t = with_content input.content
  where
    with_content :
        (content : Text)
        → Safe (Calls.create_message_with env base_dir input content chat_id user_id) t
    with_content [] = tt
    with_content (c ∷ s) =
        let chat = as_i64 chat_id in
        let sender = as_i64 user_id in
        check_files-Safe env base_dir input.files _ t (λ u.
          Safe-query (insert_message env chat sender (c ∷ s) input.files) returned u
            (λ x v g. insert_message-IsValid env chat sender (c ∷ s) input.files x v.valid)
            (λ x. IsGrown-same x _ (insert_message-users env chat sender (c ∷ s) input.files x))
            (λ x v g. insert_message-Change env chat sender (c ∷ s) input.files x)
            (λ x m v g e. tt))
