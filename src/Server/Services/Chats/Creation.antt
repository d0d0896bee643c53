-- ===== src/Server/Services/Chats/Creation.antt =====
-- What `ChatService::create` (chat_server/src/services/chat.rs) gives back.
use chat.Base.{
  ℕ, ◌≤◌, ◌<◌, ◌≡◌, ◌≢◌, refl, ap, subst, ◌∙◌, ℤ, eq_ℤ-refl, false, Option, none, some, List, [],
  ◌∷◌, ◌++◌, length, arith, as_i64, has_key, Bool-cases, Option-cases, inl, inr, ◌==◌, ==_iff, Text,
  codes, All-find,
}
use chat.Core.{Chat, ChatType}
use chat.Server.Error.{AppError, ok, ok-injective}
use chat.Server.Models.{CreateChat, ChatUser}
use chat.Server.World.{Env, World, Tables, Notice, chat_updated}
use chat.Server.World.Triples.{Triple, Triple->>=, Triple-query, Ends-ok}
use chat.Server.Sql.Chats.{insert_chat, put_chat, chat_row, notify, chat_by_id}
use chat.Server.Sql.Rows.{nextval}
use chat.Server.Services.Chats.Kinds.{IsKind, chat_type-IsKind}
use chat.Server.Services.Chats.{create, create_unless, create_with, refusal, chat_type}
use chat.Server.Invariant.{IsValid, IsRoster, chat_key}
use chat.Server.Invariant.Chats.{insert_chat-IsValid}
use chat.Server.Invariant.Services.{IsLawful, FoundAll, found-IsRoster, refusal-none}
use chat.Server.Services.Users
use chat.Server.Sql.Users.{select_users_by_ids}

-- What an INSERT INTO chats returned, and where it is.
pub record IsStored (sent : List Notice) (ws_id : ℤ) (type : ChatType) (members : List ℤ) (c : Chat)
    (t : Tables) : Type 0 where
  pub ws_id_same : c.ws_id ≡ ws_id
  pub type_same : c.type ≡ type
  pub members_same : c.members ≡ members
  pub stored : chat_by_id c.id t.chats ≡ some c
  pub told : t.notices ≡ sent ++ chat_updated (codes "INSERT") none (some c) ∷ []

chat_by_id-snoc :
    (c : Chat) (cs : List Chat)
    → has_key chat_key c.id cs ≡ false
    → chat_by_id c.id (cs ++ c ∷ []) ≡ some c
unfolding chat_by_id
chat_by_id-snoc c [] h = rw (eq_ℤ-refl c.id)
chat_by_id-snoc c (x ∷ cs) h = ground (arith, chat_by_id-snoc c cs)

put_chat-none : (env : Env) (t : Tables) (c : Chat) → (put_chat env none t).0 ≡ ok c → ⊥
unfolding put_chat
put_chat-none env t c e = cc

put_chat-ok :
    (env : Env) (t : Tables) (r c : Chat)
    → (put_chat env (some r) t).0 ≡ ok c
    → (r ≡ c)
      × (chat_by_id r.id (put_chat env (some r) t).1.chats ≡ some r)
      × ((put_chat env (some r) t).1.notices
          ≡ t.notices ++ chat_updated (codes "INSERT") none (some r) ∷ [])
unfolding put_chat notify
put_chat-ok env t r c e = ground (arith, chat_by_id-snoc r t.chats)

module _ (env : Env) (ws_id : ℤ) (type : ChatType) (members : List ℤ) where
  put_chat-IsStored :
      (o : Option Chat) (t : Tables) (c : Chat)
      → ((r : Chat) → o ≡ some r → (r.ws_id ≡ ws_id) × (r.type ≡ type) × (r.members ≡ members))
      → (put_chat env o t).0 ≡ ok c
      → IsStored t.notices ws_id type members c (put_chat env o t).1
  put_chat-IsStored none t c h e = absurd (put_chat-none env t c e)
  put_chat-IsStored (some r) t c h e =
      let (same, stored, told) = put_chat-ok env t r c e in
      let (w, k, m) = h r refl in
      subst (λ x. IsStored t.notices ws_id type members x (put_chat env (some r) t).1) same
        (record { ws_id_same = w; type_same = k; members_same = m; stored = stored; told = told })

  chat_row-fields :
      (name : Option Text) (now : ℕ) (id : ℤ) (r : Chat)
      → chat_row ws_id name type members now id ≡ some r
      → (r.ws_id ≡ ws_id) × (r.type ≡ type) × (r.members ≡ members)
  unfolding chat_row
  chat_row-fields name now id r e = ground arith

  insert_chat-IsStored :
      (name : Option Text) (t : Tables) (c : Chat)
      → (insert_chat env ws_id name type members t).0 ≡ ok c
      → IsStored t.notices ws_id type members c (insert_chat env ws_id name type members t).1
  unfolding insert_chat
  insert_chat-IsStored name t c e = elim (Option-cases (nextval t.chats_seq)) [
    | inl spent ↦ absurd (ground arith)
    | inr (id, issued) ↦
        rw (issued, insert_chat)
          (put_chat-IsStored _ _ c (chat_row-fields name t.clock id)
            (rw (issued, insert_chat) at e))
  ]

-- What `create` promises of the chat that it returns, if `sent` are the notifications before.
pub record IsCreated (input : CreateChat) (ws_id : ℕ) (sent : List Notice) (c : Chat) (t : Tables)
    : Type 0 where
  pub as_asked :
      IsStored sent
        (as_i64 ws_id)
        (chat_type input.name (length input.members) input.public)
        input.members
        c
        t
  pub valid : IsValid t

module _ (env : Env) (input : CreateChat) (ws_id : ℕ) (sent : List Notice) where
  abbrev Ready : List ChatUser → Tables → Type 0
  Ready found t = FoundAll input.members found t × (t.notices ≡ sent)

  abbrev kind : ChatType
  kind = chat_type input.name (length input.members) input.public

  abbrev Nothing : Tables → Type 0
  Nothing t = Unit

  fetch-Ready :
      IsLawful env
      → 2 ≤ length input.members
      → Triple
          (λ t. IsValid t × (t.notices ≡ sent))
          (Users.fetch_by_ids env input.members)
          Ready
          Nothing
  unfolding Users.fetch_by_ids select_users_by_ids
  fetch-Ready l two = Triple-query _ (select_users_by_ids env input.members) Ready Nothing (record {
    skipped = λ t p. tt;
    unheard = λ t p. tt;
    heard = λ t a p e. (
      (p.0, λ n. found-IsRoster env input.members t l two p.0 (ap length (ok-injective _ a e) ∙ n)),
      p.1,
    );
  })

  create_with-IsCreated :
      (found : List ChatUser)
      → Triple
          (Ready found)
          (create_with env input ws_id found)
          (IsCreated input ws_id sent)
          Nothing
  unfolding create_with
  create_with-IsCreated found = elim (Bool-cases (length found == length input.members)) [
    | inr other ↦ rw other (λ w p. tt)
    | inl same ↦ rw same (
        Triple-query (Ready found) _ (IsCreated input ws_id sent) Nothing (record {
          skipped = λ t p. tt;
          unheard = λ t p. tt;
          heard = λ t c p e. record {
            as_asked =
                subst
                  (λ n.
                    IsStored n (as_i64 ws_id) kind input.members c
                      (insert_chat env (as_i64 ws_id) input.name kind input.members t).1)
                  p.1 (insert_chat-IsStored env (as_i64 ws_id) kind input.members input.name t c e);
            valid =
                insert_chat-IsValid env (as_i64 ws_id) input.name kind input.members t p.0.0
                  (p.0.1 ((==_iff _ _).0 same));
          };
        }))
  ]

  create_unless-IsCreated :
      (o : Option AppError)
      → IsLawful env
      → refusal input ≡ o
      → Triple
          (λ t. IsValid t × (t.notices ≡ sent))
          (create_unless env input ws_id o)
          (IsCreated input ws_id sent)
          Nothing
  unfolding create_unless
  create_unless-IsCreated (some e) l r = λ w p. tt
  create_unless-IsCreated none l r =
      Triple->>= _ Ready _ Nothing _ _ (fetch-Ready l (refusal-none input r)) create_with-IsCreated

-- The members of a stored chat are a roster.
IsRoster-of_stored :
    (t : Tables) (c : Chat)
    → IsValid t
    → chat_by_id c.id t.chats ≡ some c
    → IsRoster t.users c.members
unfolding chat_by_id
IsRoster-of_stored t c v e = All-find (λ x. IsRoster t.users x.members) _ t.chats v.rosters e

-- A chat needs a name from nine members on.
refusal-named :
    (input : CreateChat) → refusal input ≡ none → 8 < length input.members → input.name ≢ none
unfolding refusal
refusal-named input e n h = ground arith

create_unless-ok :
    (env : Env) (input : CreateChat) (ws_id : ℕ) (w : World) (o : Option AppError) (c : Chat)
    → (create_unless env input ws_id o w).0 ≡ ok c
    → o ≡ none
unfolding create_unless
create_unless-ok env input ws_id w none c e = refl
create_unless-ok env input ws_id w (some x) c e = absurd (cc e)

-- From a valid state, on a database that returns the rows asked for, a chat that `create` returns is
-- of the type that name, number of members and `public` ask for (without a name `single` for two and
-- `group` for any other number, with one `public_channel` or `private_channel`), in the workspace,
-- stored under its id, and announced by one notification of an INSERT; its members are those asked for: two or more
-- existing users, none listed twice; and with more than eight of them the request had a name.
pub create-IsCreated :
    (env : Env) (input : CreateChat) (ws_id : ℕ) (w : World) (c : Chat)
    → IsLawful env
    → IsValid w.tables
    → (create env input ws_id w).0 ≡ ok c
    → IsStored w.tables.notices
        (as_i64 ws_id)
        (chat_type input.name (length input.members) input.public)
        input.members
        c
        (create env input ws_id w).1.tables
      × IsKind input.name (length input.members) input.public c.type
      × IsRoster (create env input ws_id w).1.tables.users c.members
      × (8 < length input.members → input.name ≢ none)
unfolding create
create-IsCreated env input ws_id w c l v e =
    let made =
      Ends-ok (IsCreated input ws_id w.tables.notices) (λ t. Unit) _ c _
        (create_unless-IsCreated env input ws_id w.tables.notices (refusal input) l refl w
          (v, refl))
        e in
    (
      made.as_asked,
      rw made.as_asked.type_same (chat_type-IsKind input.name (length input.members) input.public),
      IsRoster-of_stored _ c made.valid made.as_asked.stored,
      refusal-named input (create_unless-ok env input ws_id w (refusal input) c e),
    )
