-- ===== src/Server/Interleaved/Schedule.antt =====
-- Several calls at once: the state of the server with the calls that have begun, and its steps.
use chat.Base.{◌≡◌, Text, List, ◌∷◌, ◌++◌}
use chat.Core.{User, Chat, Message, Time}
use chat.Server.World.{Env, World, Link, Entry}
use chat.Server.Invariant.Runs.{Op}
use chat.Server.Invariant.Runs
use chat.Server.Interleaved.{Call, waiting, answer_by}
use chat.Server.Interleaved.Calls

pub data Answer : Type 0 where
  a_user : User → Answer
  a_chat : Chat → Answer
  a_message : Message → Answer

unfoldable pub begin : Env → Text → Op → Call Answer
begin env base_dir (Runs.create_user input) = answer_by a_user (Calls.create_user env input)
begin env base_dir (Runs.create_chat input ws_id) =
    answer_by a_chat (Calls.create_chat env input ws_id)
begin env base_dir (Runs.update_chat input ws_id chat_id) =
    answer_by a_chat (Calls.update env input ws_id chat_id)
begin env base_dir (Runs.delete_chat ws_id chat_id) =
    answer_by a_chat (Calls.delete env ws_id chat_id)
begin env base_dir (Runs.create_message input chat_id user_id) =
    answer_by a_message (Calls.create_message env base_dir input chat_id user_id)

pub record System : Type 0 where
  pub world : World
  pub calls : List (Call Answer)

-- A request arrives, a waiting call makes its access, or something else changes: what becomes of the
-- next statements, the files on the disk, the time.
pub data Step (env : Env) (base_dir : Text) (s : System) : System → Type 0 where
  arrive : (op : Op) → Step env base_dir s (record s { calls = begin env base_dir op ∷ s.calls })
  access :
      (before : List (Call Answer)) (f : World → World) (k : World → Call Answer)
      (after : List (Call Answer))
      → s.calls ≡ before ++ waiting f k ∷ after
      → Step env base_dir s (record { world = f s.world; calls = before ++ k s.world ∷ after })
  connect :
      (link : List Link) → Step env base_dir s (record s { world = record s.world { link = link } })
  upload :
      (disk : List (Text × Entry))
      → Step env base_dir s (record s { world = record s.world { disk = disk } })
  tick :
      (now : Time)
      → Step env base_dir s
          (record s { world = record s.world { tables = record s.world.tables { clock = now } } })

pub data Reach (env : Env) (base_dir : Text) (s : System) : System → Type 0 where
  here : Reach env base_dir s s
  next : {t u : System} → Reach env base_dir s t → Step env base_dir t u → Reach env base_dir s u
