-- ===== src/Server/Interleaved/Alone.antt =====
-- A call that nothing interrupts.
use chat.Base.{
  ℕ, ◌≡◌, refl, sym, ◌∙◌, pos, eq_ℤ, as_u64, Bool-cases, inl, inr, Option, none, some, List, [],
  ◌∷◌, Text, ◌==◌, length,
}
use chat.Core.{User, Chat, Message}
use chat.Server.Models.{CreateUser, CreateChat, UpdateChat, CreateMessage, Workspace, ChatUser}
use chat.Server.Error.{AppError, Result, ok, err, panic}
use chat.Server.World.{Env, World, M, resume, query}
use chat.Server.World
use chat.Server.Sql.Users.{insert_user}
use chat.Server.Services.Users
use chat.Server.Services.Chats
use chat.Server.Services.Msgs
use chat.Server.Services.Ws
use chat.Server.Interleaved.{Call, continue, run, returned, ◌>>=◌}
use chat.Server.Interleaved.Calls

module _ {A B : Type 0} where
  run-continue :
      (k : A → Call B) (f : A → M B)
      → ((a : A) (v : World) → run (k a) v ≡ f a v)
      → (r : Result AppError A) (v : World) → run (continue k r) v ≡ resume f (r, v)
  unfolding continue run
  run-continue k f h (ok a) v = h a v
  run-continue k f h (err e) v = refl
  run-continue k f h panic v = refl

  pub run->>= :
      (m : M A) (k : A → Call B) (f : A → M B)
      → ((a : A) (v : World) → run (k a) v ≡ f a v)
      → (w : World) → run (m >>= k) w ≡ World.◌>>=◌ m f w
  unfolding ◌>>=◌ World.◌>>=◌ run
  run->>= m k f h w = run-continue k f h (m w).0 (m w).1

run-access : {A : Type 0} (m : M A) (w : World) → run (m >>= returned) w ≡ m w
unfolding ◌>>=◌ run continue
run-access {A} m w = back (m w).0 (m w).1
  where
    back : (r : Result AppError A) (v : World) → run (continue returned r) v ≡ (r, v)
    back (ok a) v = refl
    back (err e) v = refl
    back panic v = refl

run-take_over :
    (ws : Workspace) (user : User) (w : World)
    → run (Calls.take_over ws user) w ≡ Users.take_over ws user w
unfolding Calls.take_over Users.take_over World.◌>>◌ run
run-take_over ws user w = elim (Bool-cases (eq_ℤ ws.owner_id (pos 0))) [
  | inl free ↦ rw free (run->>= _ _ _ (λ a v. refl) w)
  | inr owned ↦ rw owned refl
]

run-workspace_for :
    (name : Text) (o : Option Workspace) (k : Workspace → Call User) (f : Workspace → M User)
    → ((ws : Workspace) (v : World) → run (k ws) v ≡ f ws v)
    → (w : World)
    → run (Calls.workspace_for name o k) w ≡ World.◌>>=◌ (Users.workspace_for name o) f w
unfolding Calls.workspace_for Users.workspace_for
run-workspace_for name (some ws) k f h w = unfold World.◌>>=◌ in h ws w
run-workspace_for name none k f h w = run->>= (Ws.create name 0) k f h w

run-create_new :
    (env : Env) (input : CreateUser) (w : World)
    → run (Calls.create_new env input) w ≡ Users.create_new env input w
unfolding Calls.create_new Users.create_new
run-create_new env input w =
    run->>= (Ws.find_by_name input.workspace) _ _
      (λ found v.
        run-workspace_for input.workspace found _ _
          (λ ws v.
            run->>= (Users.hash_password env input.password) _ _
              (λ hash v.
                run->>= (query (insert_user ws.id input.email input.fullname hash)) _ _
                  (λ user v. run-take_over ws user v) v)
              v)
          v)
      w

run-create_user_unless :
    (env : Env) (input : CreateUser) (o : Option User) (w : World)
    → run (Calls.create_user_unless env input o) w ≡ Users.create_unless env input o w
unfolding Calls.create_user_unless Users.create_unless run
run-create_user_unless env input none w = run-create_new env input w
run-create_user_unless env input (some user) w = refl

run-create_chat_with :
    (env : Env) (input : CreateChat) (ws_id : ℕ) (users : List ChatUser) (w : World)
    → run (Calls.create_chat_with env input ws_id users) w
      ≡ Chats.create_with env input ws_id users w
unfolding Calls.create_chat_with Chats.create_with
run-create_chat_with env input ws_id users w =
    elim (Bool-cases (length users == length input.members)) [
      | inl same ↦ rw same (run-access _ w)
      | inr other ↦ rw other (unfold run in refl)
    ]

run-create_chat_unless :
    (env : Env) (input : CreateChat) (ws_id : ℕ) (o : Option AppError) (w : World)
    → run (Calls.create_chat_unless env input ws_id o) w ≡ Chats.create_unless env input ws_id o w
unfolding Calls.create_chat_unless Chats.create_unless run
run-create_chat_unless env input ws_id (some e) w = refl
run-create_chat_unless env input ws_id none w =
    run->>= (Users.fetch_by_ids env input.members) _ _ (run-create_chat_with env input ws_id) w

run-within :
    (ws_id : ℕ) (act : M Chat) (o : Option Chat) (w : World)
    → run (Calls.within ws_id act o) w ≡ Chats.within ws_id act o w
unfolding Calls.within Chats.within run
run-within ws_id act none w = refl
run-within ws_id act (some c) w = elim (Bool-cases (as_u64 c.ws_id == ws_id)) [
  | inl own ↦ rw own (run-access act w)
  | inr other ↦ rw other refl
]

resume-resume :
    {A B C : Type 0} (m : M B) (f : B → M C) (r : Result AppError A) (v : World)
    → resume f (resume (λ _. m) (r, v)) ≡ resume (λ _ x. resume f (m x)) (r, v)
resume-resume m f (ok a) v = refl
resume-resume m f (err e) v = refl
resume-resume m f panic v = refl

run-check_files :
    (env : Env) (base_dir : Text) (urls : List Text) (k : Call Message) (f : M Message)
    → ((v : World) → run k v ≡ f v)
    → (w : World)
    → run (Calls.check_files env base_dir urls k) w
      ≡ World.◌>>◌ (Msgs.check_files env base_dir urls) f w
unfolding Calls.check_files Msgs.check_files World.◌>>◌ World.◌>>=◌
run-check_files env base_dir [] k f h w = h w
run-check_files env base_dir (url ∷ urls) k f h w =
    run->>= (Msgs.check_file env base_dir url) _ _ (λ _. run-check_files env base_dir urls k f h) w
    ∙ sym (
        resume-resume (Msgs.check_files env base_dir urls) (λ _. f)
          (Msgs.check_file env base_dir url w).0 (Msgs.check_file env base_dir url w).1)

run-create_message_with :
    (env : Env) (base_dir : Text) (input : CreateMessage) (content : Text) (chat_id user_id : ℕ)
    (w : World)
    → run (Calls.create_message_with env base_dir input content chat_id user_id) w
      ≡ Msgs.create_with env base_dir input content chat_id user_id w
unfolding Calls.create_message_with Msgs.create_with
run-create_message_with env base_dir input [] chat_id user_id w = unfold run in refl
run-create_message_with env base_dir input (c ∷ s) chat_id user_id w =
    run-check_files env base_dir input.files _ _ (run-access _) w

-- Run with nothing in between, each of the calls cut at its accesses is the service's method: same
-- result, same state, for every input and every behaviour of the connection.
run-alone :
    (env : Env) (base_dir : Text) (w : World)
    → ((input : CreateUser) → run (Calls.create_user env input) w ≡ Users.create env input w)
      × ((input : CreateChat) (ws_id : ℕ)
          → run (Calls.create_chat env input ws_id) w ≡ Chats.create env input ws_id w)
      × ((input : UpdateChat) (ws_id chat_id : ℕ)
          → run (Calls.update env input ws_id chat_id) w ≡ Chats.update env input ws_id chat_id w)
      × ((ws_id chat_id : ℕ)
          → run (Calls.delete env ws_id chat_id) w ≡ Chats.delete env ws_id chat_id w)
      × ((input : CreateMessage) (chat_id user_id : ℕ)
          → run (Calls.create_message env base_dir input chat_id user_id) w
            ≡ Msgs.create env base_dir input chat_id user_id w)
unfolding Calls.create_user Users.create Calls.create_chat Chats.create Calls.update Chats.update
    Calls.delete Chats.delete Calls.create_message Msgs.create
run-alone env base_dir w = (
  λ input. run->>= (Users.find_by_email input.email) _ _ (run-create_user_unless env input) w,
  λ input ws_id. run-create_chat_unless env input ws_id (Chats.refusal input) w,
  λ input ws_id chat_id. run->>= (Chats.get_by_id chat_id) _ _ (run-within ws_id _) w,
  λ ws_id chat_id. run->>= (Chats.get_by_id chat_id) _ _ (run-within ws_id _) w,
  λ input chat_id user_id.
      run-create_message_with env base_dir input input.content chat_id user_id w,
)
