-- ===== src/Server/Invariant/Services.antt =====
-- The invariant and the operations of chat_server/src/services/chat.rs and user.rs.
use chat.Base.{
  ℕ, ◌≤◌, eq_ℤ, ◌≡◌, refl, ap, ◌∙◌, ℤ, pos, Text, true, Bool, Option, none, some, List, [], ◌∷◌,
  map, select, length, is_any, arith, count_full, Bool-cases, inl, inr, ◌==◌, ==_iff, as_i64,
  as_u64,
}
use chat.Core.{Chat, User}
use chat.Server.Models.{CreateChat, UpdateChat, CreateUser, UserRow, ChatUser, Workspace}
use chat.Server.Error.{AppError, Result, ok, err, panic, ok-injective}
use chat.Server.World.{Env, Tables, M, Statement, query, ◌>>=◌, ◌>>◌}
use chat.Server.World.Triples.{Triple, Triple->>=, Triple-query, Ends}
use chat.Server.Sql.Users.{select_users_by_ids, select_user_by_email, chat_user_of}
use chat.Server.Sql.Chats.{select_chat}
use chat.Server.Sql.Workspaces.{select_workspace_by_name}
use chat.Server.Services.Chats
use chat.Server.Services.Users
use chat.Server.Services.Ws
use chat.Server.Invariant.{IsValid, IsRoster, user_key}
use chat.Server.Invariant.Users.{insert_user-IsValid}
use chat.Server.Invariant.Workspaces.{insert_workspace-IsValid, update_workspace_owner-IsValid}
use chat.Server.Invariant.Chats.{insert_chat-IsValid, update_chat-IsValid, delete_chat-IsValid}

-- PostgreSQL returns the rows without ORDER BY in some order, each as often as it is there.
pub record IsLawful (env : Env) : Type 0 where
  pub users_order :
      (p : UserRow → Bool) (us : List UserRow)
      → length (select p (env.scan_users us)) ≡ length (select p us)
  pub chats_order :
      (p : Chat → Bool) (cs : List Chat)
      → length (select p (env.scan_chats cs)) ≡ length (select p cs)

-- An operation that keeps the invariant on every way out.
abbrev pub Keeps : {A : Type 0} → M A → Type 0
Keeps m = Triple IsValid m (λ _. IsValid) IsValid

pub Keeps->>= :
    {A B : Type 0} (m : M A) (f : A → M B) → Keeps m → ((a : A) → Keeps (f a)) → Keeps (m >>= f)
Keeps->>= m f h k = Triple->>= IsValid (λ _. IsValid) (λ _. IsValid) IsValid m f h k

pub Keeps-query :
    {A : Type 0} (s : Statement A) → ((t : Tables) → IsValid t → IsValid (s t).1) → Keeps (query s)
Keeps-query s h =
    Triple-query IsValid s (λ _. IsValid) IsValid
      (record { skipped = λ t v. v; unheard = h; heard = λ t a v e. h t v })

select-true : {A : Type 0} (xs : List A) → length (select (λ _. true) xs) ≡ length xs
select-true [] = refl
select-true (x ∷ xs) = omega (arith, select-true xs)

scan_users-length :
    (env : Env) → IsLawful env → (us : List UserRow) → length (env.scan_users us) ≡ length us
scan_users-length env l us =
    omega (arith, l.users_order (λ _. true) us, select-true (env.scan_users us), select-true us)

length-map {ℓ κ} :
    {A : Type ℓ} {B : Type κ} (f : A → B) (xs : List A) → length (map f xs) ≡ length xs
length-map f [] = refl
length-map f (x ∷ xs) = omega (arith, length-map f xs)

pub found_length :
    (env : Env) (us : List UserRow)
    → IsLawful env
    → length (map chat_user_of (env.scan_users us)) ≡ length us
found_length env us l =
    omega (arith, length-map chat_user_of (env.scan_users us), scan_users-length env l us)

pub refusal-none : (input : CreateChat) → Chats.refusal input ≡ none → 2 ≤ length input.members
unfolding Chats.refusal
refusal-none input e = ground arith

-- What the rows found say of the members asked for.
abbrev pub FoundAll : List ℤ → List ChatUser → Tables → Type 0
FoundAll members found t = IsValid t × (length found ≡ length members → IsRoster t.users members)

pub found-IsRoster :
    (env : Env) (members : List ℤ) (t : Tables)
    → IsLawful env
    → 2 ≤ length members
    → IsValid t
    → length (map chat_user_of (env.scan_users (select (λ u. is_any u.id members) t.users)))
      ≡ length members
    → IsRoster t.users members
found-IsRoster env members t l two v e =
    let rows = select (λ (u : UserRow). is_any u.id members) t.users in
    let (known, once) =
      count_full user_key members t.users v.users_once
        (omega (arith, e, found_length env rows l)) in
    record { known = known; once = once; enough = two }

pub fetch_by_ids-FoundAll :
    (env : Env) (members : List ℤ)
    → IsLawful env
    → 2 ≤ length members
    → Triple IsValid (Users.fetch_by_ids env members) (FoundAll members) IsValid
unfolding Users.fetch_by_ids select_users_by_ids
fetch_by_ids-FoundAll env members l two =
    Triple-query IsValid (select_users_by_ids env members) (FoundAll members) IsValid (record {
      skipped = λ t v. v;
      unheard = λ t v. v;
      heard = λ t a v e.
          (v, λ n. found-IsRoster env members t l two v (ap length (ok-injective _ a e) ∙ n));
    })

create_with-Keeps :
    (env : Env) (input : CreateChat) (ws_id : ℕ) (found : List ChatUser)
    → Triple
        (FoundAll input.members found)
        (Chats.create_with env input ws_id found)
        (λ _. IsValid)
        IsValid
unfolding Chats.create_with
create_with-Keeps env input ws_id found =
    let added =
      λ (t : Tables) (p : FoundAll input.members found t) (n : length found ≡ length input.members).
        insert_chat-IsValid env (as_i64 ws_id) input.name
          (Chats.chat_type input.name (length input.members) input.public) input.members t p.0
          (p.1 n) in
    elim (Bool-cases (length found == length input.members)) [
      | inl same ↦ rw same (
          Triple-query (FoundAll input.members found) _ (λ _. IsValid) IsValid
            (record {
              skipped = λ t p. p.0;
              unheard = λ t p. added t p ((==_iff _ _).0 same);
              heard = λ t a p e. added t p ((==_iff _ _).0 same);
            }))
      | inr other ↦ rw other (λ w p. p.0)
    ]

create_unless-Keeps :
    (env : Env) (input : CreateChat) (ws_id : ℕ) (o : Option AppError)
    → IsLawful env
    → Chats.refusal input ≡ o
    → Keeps (Chats.create_unless env input ws_id o)
unfolding Chats.create_unless
create_unless-Keeps env input ws_id (some e) l r = λ w v. v
create_unless-Keeps env input ws_id none l r =
    Triple->>= IsValid (FoundAll input.members) (λ _. IsValid) IsValid _ _
      (fetch_by_ids-FoundAll env input.members l (refusal-none input r))
      (create_with-Keeps env input ws_id)

pub create_chat-Keeps :
    (env : Env) (input : CreateChat) (ws_id : ℕ)
    → IsLawful env
    → Keeps (Chats.create env input ws_id)
unfolding Chats.create
create_chat-Keeps env input ws_id l =
    create_unless-Keeps env input ws_id (Chats.refusal input) l refl

within-Keeps :
    (ws_id : ℕ) (act : M Chat) (o : Option Chat) → Keeps act → Keeps (Chats.within ws_id act o)
unfolding Chats.within
within-Keeps ws_id act none h = λ w v. v
within-Keeps ws_id act (some c) h = elim (Bool-cases (as_u64 c.ws_id == ws_id)) [
  | inl same ↦ rw same h
  | inr other ↦ rw other (λ w v. v)
]

get_by_id-Keeps : (id : ℕ) → Keeps (Chats.get_by_id id)
unfolding Chats.get_by_id select_chat
get_by_id-Keeps id = Keeps-query (select_chat (as_i64 id)) (λ t v. v)

pub update_chat-Keeps :
    (env : Env) (input : UpdateChat) (ws_id chat_id : ℕ)
    → Keeps (Chats.update env input ws_id chat_id)
unfolding Chats.update
update_chat-Keeps env input ws_id chat_id = Keeps->>= _ _ (get_by_id-Keeps chat_id) (λ o.
    within-Keeps ws_id _ o (Keeps-query _ (update_chat-IsValid env input.name (as_i64 chat_id))))

pub delete_chat-Keeps : (env : Env) (ws_id chat_id : ℕ) → Keeps (Chats.delete env ws_id chat_id)
unfolding Chats.delete
delete_chat-Keeps env ws_id chat_id =
    Keeps->>= _ _ (get_by_id-Keeps chat_id)
      (λ o. within-Keeps ws_id _ o (Keeps-query _ (delete_chat-IsValid env (as_i64 chat_id))))

hash_password-Keeps : (env : Env) (password : Text) → Keeps (Users.hash_password env password)
unfolding Users.hash_password
hash_password-Keeps env password w v = hashed (env.argon2_hash password (env.salt w.drawn))
  where
    hashed :
        (r : Result Text Text) → Ends {A = Text} (λ _. IsValid) IsValid (Users.lift_hash r) w.tables
    hashed (ok h) = v
    hashed (err e) = v
    hashed panic = v

as_i64-zero : as_i64 0 ≡ pos 0
unfolding as_i64
as_i64-zero = refl

create_workspace-Keeps : (name : Text) → Keeps (Ws.create name 0)
unfolding Ws.create
create_workspace-Keeps name = rw as_i64-zero (Keeps-query _ (insert_workspace-IsValid name))

workspace_for-Keeps : (name : Text) (o : Option Workspace) → Keeps (Users.workspace_for name o)
unfolding Users.workspace_for
workspace_for-Keeps name (some ws) = λ w v. v
workspace_for-Keeps name none = create_workspace-Keeps name

take_over-Keeps : (ws : Workspace) (user : User) → Keeps (Users.take_over ws user)
unfolding Users.take_over Ws.update_owner ◌>>◌
take_over-Keeps ws user = elim (Bool-cases (eq_ℤ ws.owner_id (pos 0))) [
  | inl ownerless ↦ rw ownerless (
      Keeps->>= _ _ (Keeps-query _ (update_workspace_owner-IsValid (as_i64 (as_u64 user.id)) ws.id))
        (λ _ w v. v))
  | inr owned ↦ rw owned (λ w v. v)
]

create_new-Keeps : (env : Env) (input : CreateUser) → Keeps (Users.create_new env input)
unfolding Users.create_new Ws.find_by_name select_workspace_by_name
create_new-Keeps env input =
    Keeps->>= _ _ (Keeps-query (select_workspace_by_name input.workspace) (λ t v. v)) (λ found.
      Keeps->>= _ _ (workspace_for-Keeps input.workspace found) (λ ws.
        Keeps->>= _ _ (hash_password-Keeps env input.password) (λ h.
          Keeps->>= _ _ (Keeps-query _ (insert_user-IsValid ws.id input.email input.fullname h))
            (take_over-Keeps ws))))

create_unless_user-Keeps :
    (env : Env) (input : CreateUser) (o : Option User) → Keeps (Users.create_unless env input o)
unfolding Users.create_unless
create_unless_user-Keeps env input none = create_new-Keeps env input
create_unless_user-Keeps env input (some _) = λ w v. v

pub create_user-Keeps : (env : Env) (input : CreateUser) → Keeps (Users.create env input)
unfolding Users.create Users.find_by_email select_user_by_email
create_user-Keeps env input =
    Keeps->>= _ _ (Keeps-query (select_user_by_email input.email) (λ t v. v))
      (create_unless_user-Keeps env input)
