-- ===== src/Server/Services/Msgs.antt =====
-- `MsgService`: chat_server/src/services/msg.rs. `base_dir` is a field of the service.
pub mod Paging
pub mod Attached
pub mod Posted
pub mod Pages
pub mod Complete
pub mod Granted
pub mod Shown
use chat.Base.{
  ℕ, as_i64, i64_max, Text, text_eq, codes, Bool, true, false, Option, none, some, List, [], ◌∷◌,
  any,
}
use chat.Core.{Message}
use chat.Server.Models.{CreateMessage, ListMessageOption}
use chat.Server.Error.{AppError, invalid_input, Result, ok}
use chat.Server.World.{M, Env, World, query, pure, raise, abort, ◌>>=◌, ◌>>◌}
use chat.Server.ChatFile
use chat.Server.ChatFile.{ChatFile, from_str}
use chat.Server.Sql.Messages.{insert_message, select_messages}

-- `?` on a result that is at hand
unfoldable pub lift : {A : Type 0} → Result AppError A → M A
lift r w = (r, w)

-- `path.exists()`
unfoldable pub exists : Env → Text → M Bool
exists env p w = (ok (any (λ e. text_eq e.0 (env.resolve p)) w.disk), w)

abbrev pub unless_missing : Bool → M (Unit {0})
unless_missing true = pure tt
unless_missing false = raise (invalid_input (codes "file not found"))

unfoldable pub check_path : Env → Option Text → M (Unit {0})
check_path env none = abort
check_path env (some p) = do found ← exists env p; unless_missing found

-- one round of the loop over `input.files`
unfoldable pub check_file : Env → Text → Text → M (Unit {0})
check_file env base_dir url = do
  file ← lift (from_str url)
  check_path env (ChatFile.path base_dir file)

unfoldable pub check_files : Env → Text → List Text → M (Unit {0})
check_files env base_dir [] = pure tt
check_files env base_dir (url ∷ urls) = check_file env base_dir url >> check_files env base_dir urls

-- the test of the content, and what follows it
unfoldable pub create_with : Env → Text → CreateMessage → Text → (chat_id user_id : ℕ) → M Message
create_with env base_dir input [] chat_id user_id = raise (invalid_input (codes "content is empty"))
create_with env base_dir input (c ∷ s) chat_id user_id =
    check_files env base_dir input.files
    >> query (insert_message env (as_i64 chat_id) (as_i64 user_id) (c ∷ s) input.files)

-- `MsgService::create`
unfoldable pub create : Env → Text → CreateMessage → (chat_id user_id : ℕ) → M Message
create env base_dir input chat_id user_id =
    create_with env base_dir input input.content chat_id user_id

abbrev pub last_id_or : Option ℕ → ℕ
last_id_or none = i64_max
last_id_or (some n) = n

-- `MsgService::list`
unfoldable pub list : ListMessageOption → ℕ → M (List Message)
list input chat_id =
    query
      (select_messages (as_i64 chat_id) (as_i64 (last_id_or input.last_id)) (as_i64 input.limit))
