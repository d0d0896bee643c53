-- ===== src/Server/Services/Chats/Renaming.antt =====
-- What `ChatService::update` (chat_server/src/services/chat.rs) makes of a chat.
use chat.Base.{
  ℕ, ℤ, ◌≡◌, refl, sym, ap, subst, ◌∙◌, as_i64, as_u64, Text, codes, Option, none, some, List, [],
  ◌∷◌, ◌++◌, map, arith, Bool-cases, inl, inr, false, eq_ℤ, eq_ℤ_iff, ◌==◌, ==_iff,
}
use chat.Core.{Chat}
use chat.Server.Models.{UpdateChat}
use chat.Server.Error.{ok, ok-injective}
use chat.Server.World.{Env, World, Tables, chat_updated, query}
use chat.Server.World.Triples.{Triple, Triple->>=, Triple-query, Ends-ok}
use chat.Server.Sql.Rows.{fit_null}
use chat.Server.Sql.Chats.{chat_by_id, select_chat, update_chat, put_name, notify, rename}
use chat.Server.Services.Chats.{update, within, get_by_id}

-- What an update of the chat `id` returned, and what it did to the tables `t`: `before` is the chat
-- as it was.
pub record IsRenamed (name : Option Text) (id : ℤ) (before : Chat) (t : Tables) (c : Chat)
    (u : Tables) : Type 0 where
  pub there : chat_by_id id t.chats ≡ some before
  pub fitted : fit_null 64 name ≡ some c.name
  pub same : c ≡ record before { name = c.name }
  pub stored : chat_by_id id u.chats ≡ some c
  pub others : (z : ℤ) → eq_ℤ z id ≡ false → chat_by_id z u.chats ≡ chat_by_id z t.chats
  pub told : u.notices ≡ t.notices ++ chat_updated (codes "UPDATE") (some before) (some c) ∷ []

module _ (id : ℤ) (n : Option Text) where
  pub rename-stored :
      (cs : List Chat) (c : Chat)
      → chat_by_id id cs ≡ some c
      → chat_by_id id (map (rename id n) cs) ≡ some (record c { name = n })
  unfolding chat_by_id
  rename-stored [] c h = absurd (cc h)
  rename-stored (x ∷ cs) c h = ground (arith, rename-stored cs c)

  pub rename-others :
      (z : ℤ) (cs : List Chat)
      → eq_ℤ z id ≡ false
      → chat_by_id z (map (rename id n) cs) ≡ chat_by_id z cs
  unfolding chat_by_id
  rename-others z [] h = refl
  rename-others z (x ∷ cs) h =
      ground (arith, rename-others z cs h, eq_ℤ_iff x.id id, eq_ℤ_iff x.id z, eq_ℤ_iff z id)

put_name-ok :
    (env : Env) (id : ℤ) (n : Option Text) (b c : Chat) (t : Tables)
    → (put_name env (some n) id b t).0 ≡ ok c
    → (record b { name = n } ≡ c)
      × ((put_name env (some n) id b t).1.chats ≡ map (rename id n) t.chats)
      × ((put_name env (some n) id b t).1.notices
          ≡ t.notices ++ chat_updated (codes "UPDATE") (some b) (some (record b { name = n })) ∷ [])
unfolding put_name notify
put_name-ok env id n b c t e = (ground arith, ground arith, ground arith)

put_name-none :
    (env : Env) (id : ℤ) (b c : Chat) (t : Tables) → (put_name env none id b t).0 ≡ ok c → ⊥
unfolding put_name
put_name-none env id b c t e = cc e

module _ (env : Env) (name : Option Text) (id : ℤ) where
  put_name-IsRenamed :
      (o : Option (Option Text)) (b c : Chat) (t : Tables)
      → fit_null 64 name ≡ o
      → chat_by_id id t.chats ≡ some b
      → (put_name env o id b t).0 ≡ ok c
      → IsRenamed name id b t c (put_name env o id b t).1
  put_name-IsRenamed none b c t f there e = absurd (put_name-none env id b c t e)
  put_name-IsRenamed (some n) b c t f there e =
      let (same, chats, told) = put_name-ok env id n b c t e in
      subst (λ x. IsRenamed name id b t x (put_name env (some n) id b t).1) same
        (record {
          there = there;
          fitted = f;
          same = refl;
          stored = ap (chat_by_id id) chats ∙ rename-stored id n t.chats b there;
          others = λ z h. ap (chat_by_id z) chats ∙ rename-others id n z t.chats h;
          told = told;
        })

  update_chat-IsRenamed :
      (b c : Chat) (t : Tables)
      → chat_by_id id t.chats ≡ some b
      → (update_chat env name id t).0 ≡ ok c
      → IsRenamed name id b t c (update_chat env name id t).1
  unfolding update_chat
  update_chat-IsRenamed b c t there e =
      rw (there, update_chat) (put_name-IsRenamed _ b c t refl there (rw (there, update_chat) at e))

module _ (env : Env) (input : UpdateChat) (ws_id chat_id : ℕ) (t : Tables) where
  abbrev Found : Option Chat → Tables → Type 0
  Found o u = (chat_by_id (as_i64 chat_id) t.chats ≡ o) × (u ≡ t)

  abbrev Renamed : Chat → Tables → Type 0
  Renamed c u =
      (b : Chat) × (as_u64 b.ws_id ≡ ws_id) × IsRenamed input.name (as_i64 chat_id) b t c u

  get_by_id-Found : Triple (λ u. u ≡ t) (get_by_id chat_id) Found (λ _. Unit)
  unfolding get_by_id select_chat
  get_by_id-Found =
      Triple-query (λ u. u ≡ t) (select_chat (as_i64 chat_id)) Found (λ _. Unit)
        (record {
          skipped = λ u e. tt;
          unheard = λ u e. tt;
          heard = λ u o e r. (
            ap (λ (x : Tables). chat_by_id (as_i64 chat_id) x.chats) (sym e) ∙ ok-injective _ o r,
            e,
          );
        })

  within-Renamed :
      (o : Option Chat)
      → Triple
          (Found o)
          (within ws_id (query (update_chat env input.name (as_i64 chat_id))) o)
          Renamed
          (λ _. Unit)
  unfolding within
  within-Renamed none = λ w p. tt
  within-Renamed (some b) = elim (Bool-cases (as_u64 b.ws_id == ws_id)) [
    | inr other ↦ rw other (λ w p. tt)
    | inl own ↦ rw own (
        Triple-query (Found (some b)) (update_chat env input.name (as_i64 chat_id)) Renamed
          (λ _. Unit)
          (record {
            skipped = λ u p. tt;
            unheard = λ u p. tt;
            heard = λ u c p h. (
              b,
              (==_iff _ _).0 own,
              subst
                  (λ x.
                    IsRenamed input.name (as_i64 chat_id) b x c
                      (update_chat env input.name (as_i64 chat_id) u).1)
                  p.1
                  (update_chat-IsRenamed env input.name (as_i64 chat_id) b c u
                    (ap (λ (x : Tables). chat_by_id (as_i64 chat_id) x.chats) p.1 ∙ p.0) h),
            );
          }))
  ]

-- If `update` returns a chat, whatever the connection did, a chat of that id and of the workspace
-- given was stored; the chat returned is that one under the name asked for (no name if none is
-- given), as a column of 64 characters takes it, and is now the one stored; all other chats are as
-- before; and one notification of an UPDATE carries both.
pub update-IsRenamed :
    (env : Env) (input : UpdateChat) (ws_id chat_id : ℕ) (w : World) (c : Chat)
    → (update env input ws_id chat_id w).0 ≡ ok c
    → (b : Chat) × (as_u64 b.ws_id ≡ ws_id)
      × IsRenamed input.name
          (as_i64 chat_id)
          b
          w.tables
          c
          (update env input ws_id chat_id w).1.tables
unfolding update
update-IsRenamed env input ws_id chat_id w c e =
    Ends-ok (Renamed env input ws_id chat_id w.tables) (λ _. Unit) _ c _
      (Triple->>= _ (Found env input ws_id chat_id w.tables)
        (Renamed env input ws_id chat_id w.tables) (λ _. Unit) _ _
        (get_by_id-Found env input ws_id chat_id w.tables)
        (within-Renamed env input ws_id chat_id w.tables) w refl)
      e
