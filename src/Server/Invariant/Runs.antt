-- ===== src/Server/Invariant/Runs.antt =====
-- Runs of the services: any sequence of their operations, over any behaviour of the connection.
use chat.Base.{ℕ, Text, Bool, true, false, Option, none, some, List, [], ◌∷◌, as_i64}
use chat.Server.Models.{CreateUser, CreateChat, UpdateChat, CreateMessage}
use chat.Server.Error.{AppError, Result, ok, err, panic}
use chat.Server.ChatFile.{ChatFile, from_str}
use chat.Server.ChatFile
use chat.Server.World.{Env, World, Tables, ◌>>◌}
use chat.Server.World.Triples.{Ends}
use chat.Server.Services.Users
use chat.Server.Services.Chats
use chat.Server.Services.Msgs
use chat.Server.Invariant.{IsValid}
use chat.Server.Invariant.Messages.{insert_message-IsValid}
use chat.Server.Invariant.Services.{
  IsLawful, Keeps, Keeps->>=, Keeps-query, create_user-Keeps, create_chat-Keeps, update_chat-Keeps,
  delete_chat-Keeps,
}

unless_missing-Keeps : (b : Bool) → Keeps (Msgs.unless_missing b)
unless_missing-Keeps true = λ w v. v
unless_missing-Keeps false = λ w v. v

exists-Keeps : (env : Env) (p : Text) → Keeps (Msgs.exists env p)
unfolding Msgs.exists
exists-Keeps env p w v = v

check_path-Keeps : (env : Env) (o : Option Text) → Keeps (Msgs.check_path env o)
unfolding Msgs.check_path
check_path-Keeps env none = λ w v. v
check_path-Keeps env (some p) = Keeps->>= _ _ (exists-Keeps env p) unless_missing-Keeps

lift-Keeps : {A : Type 0} (r : Result AppError A) → Keeps (Msgs.lift r)
unfolding Msgs.lift
lift-Keeps (ok a) = λ w v. v
lift-Keeps (err e) = λ w v. v
lift-Keeps panic = λ w v. v

check_file-Keeps : (env : Env) (base_dir url : Text) → Keeps (Msgs.check_file env base_dir url)
unfolding Msgs.check_file
check_file-Keeps env base_dir url =
    Keeps->>= _ _ (lift-Keeps (from_str url)) (λ f. check_path-Keeps env (ChatFile.path base_dir f))

check_files-Keeps :
    (env : Env) (base_dir : Text) (urls : List Text) → Keeps (Msgs.check_files env base_dir urls)
unfolding Msgs.check_files ◌>>◌
check_files-Keeps env base_dir [] = λ w v. v
check_files-Keeps env base_dir (url ∷ urls) =
    Keeps->>= _ _ (check_file-Keeps env base_dir url) (λ _. check_files-Keeps env base_dir urls)

insert-Keeps :
    (env : Env) (base_dir : Text) (input : CreateMessage) (content : Text) (chat_id user_id : ℕ)
    → Keeps (Msgs.create_with env base_dir input content chat_id user_id)
unfolding Msgs.create_with ◌>>◌
insert-Keeps env base_dir input [] chat_id user_id = λ w v. v
insert-Keeps env base_dir input (c ∷ s) chat_id user_id =
    Keeps->>= _ _ (check_files-Keeps env base_dir input.files) (λ _.
      Keeps-query _
        (insert_message-IsValid env (as_i64 chat_id) (as_i64 user_id) (c ∷ s) input.files))

pub create_message-Keeps :
    (env : Env) (base_dir : Text) (input : CreateMessage) (chat_id user_id : ℕ)
    → Keeps (Msgs.create env base_dir input chat_id user_id)
unfolding Msgs.create
create_message-Keeps env base_dir input chat_id user_id =
    insert-Keeps env base_dir input input.content chat_id user_id

-- The operations that write, with their arguments.
pub data Op : Type 0 where
  create_user : CreateUser → Op
  create_chat : CreateChat → (ws_id : ℕ) → Op
  update_chat : UpdateChat → (ws_id chat_id : ℕ) → Op
  delete_chat : (ws_id chat_id : ℕ) → Op
  create_message : CreateMessage → (chat_id user_id : ℕ) → Op

-- the state that an operation leaves, whatever its result
unfoldable pub serve : Env → Text → Op → World → World
serve env base_dir (create_user input) w = (Users.create env input w).1
serve env base_dir (create_chat input ws_id) w = (Chats.create env input ws_id w).1
serve env base_dir (update_chat input ws_id chat_id) w = (Chats.update env input ws_id chat_id w).1
serve env base_dir (delete_chat ws_id chat_id) w = (Chats.delete env ws_id chat_id w).1
serve env base_dir (create_message input chat_id user_id) w =
    (Msgs.create env base_dir input chat_id user_id w).1

unfoldable pub serve_all : Env → Text → List Op → World → World
serve_all env base_dir [] w = w
serve_all env base_dir (op ∷ ops) w = serve_all env base_dir ops (serve env base_dir op w)

kept :
    {A : Type 0} (r : Result AppError A) (t : Tables) → Ends (λ _. IsValid) IsValid r t → IsValid t
kept (ok a) t v = v
kept (err e) t v = v
kept panic t v = v

serve-IsValid :
    (env : Env) (base_dir : Text) (op : Op) (w : World)
    → IsLawful env
    → IsValid w.tables
    → IsValid (serve env base_dir op w).tables
unfolding serve
serve-IsValid env base_dir (create_user input) w l v = kept _ _ (create_user-Keeps env input w v)
serve-IsValid env base_dir (create_chat input ws_id) w l v =
    kept _ _ (create_chat-Keeps env input ws_id l w v)
serve-IsValid env base_dir (update_chat input ws_id chat_id) w l v =
    kept _ _ (update_chat-Keeps env input ws_id chat_id w v)
serve-IsValid env base_dir (delete_chat ws_id chat_id) w l v =
    kept _ _ (delete_chat-Keeps env ws_id chat_id w v)
serve-IsValid env base_dir (create_message input chat_id user_id) w l v =
    kept _ _ (create_message-Keeps env base_dir input chat_id user_id w v)

-- On a database that returns the rows asked for, any sequence of sign-ups, creations, updates and
-- deletions of chats, and messages, over any behaviour of the connection and with any results, leads
-- from a valid state to a valid one.
pub serve_all-IsValid :
    (env : Env) (base_dir : Text) (ops : List Op) (w : World)
    → IsLawful env
    → IsValid w.tables
    → IsValid (serve_all env base_dir ops w).tables
unfolding serve_all
serve_all-IsValid env base_dir [] w l v = v
serve_all-IsValid env base_dir (op ∷ ops) w l v =
    serve_all-IsValid env base_dir ops (serve env base_dir op w) l
      (serve-IsValid env base_dir op w l v)
