-- ===== src/Server/Interleaved/Budget.antt =====
-- How many accesses a request to chat_server/src/services makes.
use chat.Base.{
  ℕ, zero, suc, pos, eq_ℤ, as_u64, Text, Bool-cases, inl, inr, Option, none, some, List, [], ◌∷◌,
  length, ◌==◌,
}
use chat.Core.{User, Chat, Message}
use chat.Server.Models.{CreateUser, CreateChat, CreateMessage, Workspace}
use chat.Server.Error.{AppError, Result, ok, err, panic}
use chat.Server.World.{Env, World, M}
use chat.Server.Invariant.Runs.{Op}
use chat.Server.Invariant.Runs
use chat.Server.Services.Chats
use chat.Server.Interleaved.{Call, ended, waiting, continue, answer_by, ◌>>=◌}
use chat.Server.Interleaved.Calls
use chat.Server.Interleaved.Schedule.{begin}

-- The call makes at most `n` accesses, whatever it sees at them.
abbrev pub Within : {A : Type 0} → ℕ → Call A → Type 0
Within n (ended r) = Unit
Within zero (waiting f k) = ⊥
Within (suc n) (waiting f k) = (w : World) → Within n (k w)

-- the accesses that a request may make
abbrev pub budget : Op → ℕ
budget (Runs.create_user input) = 6
budget (Runs.create_chat input ws_id) = 2
budget (Runs.update_chat input ws_id chat_id) = 2
budget (Runs.delete_chat ws_id chat_id) = 2
budget (Runs.create_message input chat_id user_id) = suc (length input.files)

module _ {A B : Type 0} where
  Within-continue :
      (n : ℕ) (k : A → Call B) (r : Result AppError A)
      → ((a : A) → Within n (k a))
      → Within n (continue k r)
  unfolding continue
  Within-continue n k (ok a) h = h a
  Within-continue n k (err e) h = tt
  Within-continue n k panic h = tt

  Within->>= :
      (n : ℕ) (m : M A) (k : A → Call B) → ((a : A) → Within n (k a)) → Within (suc n) (m >>= k)
  unfolding ◌>>=◌
  Within->>= n m k h w = Within-continue n k (m w).0 h

  Within-answer_by : (n : ℕ) (f : A → B) (c : Call A) → Within n c → Within n (answer_by f c)
  unfolding answer_by
  Within-answer_by n f (ended (ok a)) h = tt
  Within-answer_by n f (ended (err e)) h = tt
  Within-answer_by n f (ended panic) h = tt
  Within-answer_by zero f (waiting g k) h = h
  Within-answer_by (suc n) f (waiting g k) h = λ w. Within-answer_by n f (k w) (h w)

Within-take_over : (ws : Workspace) (user : User) → Within 1 (Calls.take_over ws user)
unfolding Calls.take_over
Within-take_over ws user = elim (Bool-cases (eq_ℤ ws.owner_id (pos 0))) [
  | inl free ↦ rw free (Within->>= 0 _ _ (λ _. tt))
  | inr owned ↦ rw owned tt
]

Within-suc : {A : Type 0} (n : ℕ) (c : Call A) → Within n c → Within (suc n) c
Within-suc n (ended r) h = tt
Within-suc zero (waiting f k) h = absurd h
Within-suc (suc n) (waiting f k) h = λ w. Within-suc n (k w) (h w)

Within-workspace_for :
    (n : ℕ) (name : Text) (o : Option Workspace) (k : Workspace → Call User)
    → ((ws : Workspace) → Within n (k ws))
    → Within (suc n) (Calls.workspace_for name o k)
unfolding Calls.workspace_for
Within-workspace_for n name none k h = Within->>= n _ k h
Within-workspace_for n name (some ws) k h = Within-suc n (k ws) (h ws)

Within-create_user : (env : Env) (input : CreateUser) → Within 6 (Calls.create_user env input)
unfolding Calls.create_user Calls.create_user_unless Calls.create_new
Within-create_user env input = Within->>= 5 _ _ unless
  where
    unless : (o : Option User) → Within 5 (Calls.create_user_unless env input o)
    unless (some user) = tt
    unless none = Within->>= 4 _ _ (λ found.
        Within-workspace_for 3 input.workspace found _
          (λ ws. Within->>= 2 _ _ (λ hash. Within->>= 1 _ _ (λ user. Within-take_over ws user))))

Within-create_chat :
    (env : Env) (input : CreateChat) (ws_id : ℕ) (o : Option AppError)
    → Within 2 (Calls.create_chat_unless env input ws_id o)
unfolding Calls.create_chat_unless Calls.create_chat_with
Within-create_chat env input ws_id (some e) = tt
Within-create_chat env input ws_id none = Within->>= 1 _ _ (λ found.
    elim (Bool-cases (length found == length input.members)) [
      | inl same ↦ rw same (Within->>= 0 _ _ (λ _. tt))
      | inr other ↦ rw other tt
    ])

Within-within : (ws_id : ℕ) (act : M Chat) (o : Option Chat) → Within 1 (Calls.within ws_id act o)
unfolding Calls.within
Within-within ws_id act none = tt
Within-within ws_id act (some c) = elim (Bool-cases (as_u64 c.ws_id == ws_id)) [
  | inl own ↦ rw own (Within->>= 0 _ _ (λ _. tt))
  | inr other ↦ rw other tt
]

Within-check_files :
    (env : Env) (base_dir : Text) (urls : List Text) (k : Call Message)
    → Within 1 k
    → Within (suc (length urls)) (Calls.check_files env base_dir urls k)
unfolding Calls.check_files
Within-check_files env base_dir [] k h = h
Within-check_files env base_dir (url ∷ urls) k h =
    Within->>= (suc (length urls)) _ _ (λ _. Within-check_files env base_dir urls k h)

Within-create_message :
    (env : Env) (base_dir : Text) (input : CreateMessage) (content : Text) (chat_id user_id : ℕ)
    → Within
        (suc (length input.files))
        (Calls.create_message_with env base_dir input content chat_id user_id)
unfolding Calls.create_message_with
Within-create_message env base_dir input [] chat_id user_id = tt
Within-create_message env base_dir input (c ∷ s) chat_id user_id =
    Within-check_files env base_dir input.files _ (Within->>= 0 _ _ (λ _. tt))

pub Within-begin :
    (env : Env) (base_dir : Text) (op : Op) → Within (budget op) (begin env base_dir op)
unfolding begin Calls.create_chat Calls.update Calls.delete Calls.create_message
Within-begin env base_dir (Runs.create_user input) =
    Within-answer_by 6 _ _ (Within-create_user env input)
Within-begin env base_dir (Runs.create_chat input ws_id) =
    Within-answer_by 2 _ _ (Within-create_chat env input ws_id (Chats.refusal input))
Within-begin env base_dir (Runs.update_chat input ws_id chat_id) =
    Within-answer_by 2 _ _ (Within->>= 1 _ _ (Within-within ws_id _))
Within-begin env base_dir (Runs.delete_chat ws_id chat_id) =
    Within-answer_by 2 _ _ (Within->>= 1 _ _ (Within-within ws_id _))
Within-begin env base_dir (Runs.create_message input chat_id user_id) =
    Within-answer_by (suc (length input.files)) _ _
      (Within-create_message env base_dir input input.content chat_id user_id)
