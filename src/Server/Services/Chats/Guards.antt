-- ===== src/Server/Services/Chats/Guards.antt =====
-- Who may change a chat: the guard of `update` and `delete` (chat_server/src/services/chat.rs).
use chat.Base.{
  ℕ, ◌≡◌, ◌≢◌, refl, sym, ap, subst, ◌∙◌, ℤ, as_i64, as_u64, eq_ℤ, eq_ℤ_iff, true, false, Option,
  none, some, List, [], ◌∷◌, select, any, has_key, arith, codes, Bool-cases, inl, inr, ◌==◌, ==_iff,
}
use chat.Core.{Chat, Message}
use chat.Server.Error.{AppError, Result, ok, err, panic, ok-injective}
use chat.Server.Models.{UpdateChat}
use chat.Server.World.{Env, World, Tables, M, query, ◌>>=◌, lift_sql, chat_updated}
use chat.Server.World.Triples.{Triple, Ends, Triple-query, Triple->>=, query_up}
use chat.Server.Sql.Rows.{sendable}
use mathlib.Core.Option.{some-injective}
use chat.Server.Sql.Chats.{select_chat, chat_by_id, delete_chat, not_chat, not_in_chat, notify}
use chat.Server.Services.Chats.{update, delete, within, get_by_id}
use chat.Server.Invariant.{chat_key}

-- What is known of the tables once the chat `c` has been read: they are still `t`.
abbrev Read : Tables → Chat → Option Chat → Tables → Type 0
Read t c o u = (o ≡ some c) × (u ≡ t)

module _ (ws_id chat_id : ℕ) (t : Tables) (c : Chat)
    (there : chat_by_id (as_i64 chat_id) t.chats ≡ some c) (foreign : as_u64 c.ws_id ≢ ws_id)
    (act : M Chat) where
  get_by_id-Read : Triple (λ u. u ≡ t) (get_by_id chat_id) (Read t c) (λ u. u ≡ t)
  unfolding get_by_id select_chat
  get_by_id-Read =
      Triple-query (λ u. u ≡ t) (select_chat (as_i64 chat_id)) (Read t c) (λ u. u ≡ t)
        (record {
          skipped = λ u e. e;
          unheard = λ u e. e;
          heard = λ u o e r. (
            sym (ok-injective _ o r)
                ∙ ap (λ (x : Tables). chat_by_id (as_i64 chat_id) x.chats) e
                ∙ there,
            e,
          );
        })

  within-foreign :
      (o : Option Chat) → Triple (Read t c o) (within ws_id act o) (λ _ u. u ≡ t) (λ u. u ≡ t)
  unfolding within
  within-foreign none w p = p.1
  within-foreign (some x) w p = elim (Bool-cases (as_u64 x.ws_id == ws_id)) [
    | inl same ↦ absurd (
        foreign
          (ap (λ (y : Chat). as_u64 y.ws_id) (sym (some-injective x c p.0)) ∙ (==_iff _ _).0 same))
    | inr other ↦ rw other (p.1)
  ]

  guard-foreign :
      (w : World) → w.tables ≡ t → ((get_by_id chat_id >>= within ws_id act) w).1.tables ≡ t
  guard-foreign w e = left _ _ (
      Triple->>= (λ u. u ≡ t) (Read t c) (λ _ u. u ≡ t) (λ u. u ≡ t) _ _ get_by_id-Read
        within-foreign w e)
    where
      left : (r : Result AppError Chat) (u : Tables) → Ends (λ _ x. x ≡ t) (λ x. x ≡ t) r u → u ≡ t
      left (ok a) u h = h
      left (err x) u h = h
      left panic u h = h

-- However the connection behaves, neither `delete` nor `update` of a stored chat under another
-- workspace than the chat's changes any table.
pub foreign_workspace :
    (env : Env) (input : UpdateChat) (ws_id chat_id : ℕ) (w : World) (c : Chat)
    → chat_by_id (as_i64 chat_id) w.tables.chats ≡ some c
    → as_u64 c.ws_id ≢ ws_id
    → ((delete env ws_id chat_id w).1.tables ≡ w.tables)
      × ((update env input ws_id chat_id w).1.tables ≡ w.tables)
unfolding delete update
foreign_workspace env input ws_id chat_id w c there foreign = (
  guard-foreign ws_id chat_id w.tables c there foreign _ w refl,
  guard-foreign ws_id chat_id w.tables c there foreign _ w refl,
)

-- What a deletion of the chat `id` makes of the tables: the chat and its messages are gone, and all
-- other chats have their rows and messages as before.
pub record IsDeleted (id : ℤ) (t u : Tables) : Type 0 where
  pub gone : has_key chat_key id u.chats ≡ false
  pub silent : any (λ (m : Message). eq_ℤ m.chat_id id) u.messages ≡ false
  pub others : (z : ℤ) → eq_ℤ z id ≡ false → chat_by_id z u.chats ≡ chat_by_id z t.chats
  pub threads :
      (z : ℤ)
      → eq_ℤ z id ≡ false
      → select (λ (m : Message). eq_ℤ m.chat_id z) u.messages
        ≡ select (λ (m : Message). eq_ℤ m.chat_id z) t.messages

module _ (id : ℤ) where
  pub chats_gone : (cs : List Chat) → has_key chat_key id (select (not_chat id) cs) ≡ false
  chats_gone [] = refl
  chats_gone (c ∷ cs) = ground (arith, chats_gone cs)

  messages_gone :
      (ms : List Message) → any (λ m. eq_ℤ m.chat_id id) (select (not_in_chat id) ms) ≡ false
  messages_gone [] = refl
  messages_gone (m ∷ ms) = ground (arith, messages_gone ms)

  pub chats_kept :
      (z : ℤ) (cs : List Chat)
      → eq_ℤ z id ≡ false
      → chat_by_id z (select (not_chat id) cs) ≡ chat_by_id z cs
  unfolding chat_by_id
  chats_kept z [] n = refl
  chats_kept z (c ∷ cs) n =
      ground (arith, chats_kept z cs n, eq_ℤ_iff c.id id, eq_ℤ_iff c.id z, eq_ℤ_iff z id)

  pub messages_kept :
      (z : ℤ) (ms : List Message)
      → eq_ℤ z id ≡ false
      → select (λ m. eq_ℤ m.chat_id z) (select (not_in_chat id) ms)
        ≡ select (λ m. eq_ℤ m.chat_id z) ms
  messages_kept z [] n = refl
  messages_kept z (m ∷ ms) n =
      ground
        (arith, messages_kept z ms n, eq_ℤ_iff m.chat_id id, eq_ℤ_iff m.chat_id z, eq_ℤ_iff z id)

  delete_chat-IsDeleted :
      (env : Env) (t : Tables) (c : Chat)
      → chat_by_id id t.chats ≡ some c
      → sendable env (chat_updated (codes "DELETE") (some c) none) ≡ true
      → ((delete_chat env id t).0 ≡ ok c) × IsDeleted id t (delete_chat env id t).1
  unfolding delete_chat notify
  delete_chat-IsDeleted env t c there fits = (
    rw (there, delete_chat, fits),
    rw (there, delete_chat, fits)
        (record {
          gone = chats_gone t.chats;
          silent = messages_gone t.messages;
          others = λ z n. chats_kept z t.chats n;
          threads = λ z n. messages_kept z t.messages n;
        }),
  )

guarded :
    (ws_id chat_id : ℕ) (act : M Chat) (w : World)
    → w.link ≡ []
    → (get_by_id chat_id >>= within ws_id act) w
      ≡ within ws_id act (chat_by_id (as_i64 chat_id) w.tables.chats) w
unfolding get_by_id select_chat ◌>>=◌
guarded ws_id chat_id act w up = rw (query_up (select_chat (as_i64 chat_id)) w up) refl

within-own :
    (ws_id : ℕ) (act : M Chat) (c : Chat) (w : World)
    → as_u64 c.ws_id ≡ ws_id
    → within ws_id act (some c) w ≡ act w
unfolding within
within-own ws_id act c w own = rw ((==_iff _ _).1 own)

-- With the statements answered and the notification short enough, `delete` under the chat's own
-- workspace returns the chat; afterwards neither it nor a message of it is there, and every other
-- chat has its row and its messages as before.
pub delete-IsDeleted :
    (env : Env) (ws_id chat_id : ℕ) (w : World) (c : Chat)
    → w.link ≡ []
    → chat_by_id (as_i64 chat_id) w.tables.chats ≡ some c
    → as_u64 c.ws_id ≡ ws_id
    → sendable env (chat_updated (codes "DELETE") (some c) none) ≡ true
    → ((delete env ws_id chat_id w).0 ≡ ok c)
      × IsDeleted (as_i64 chat_id) w.tables (delete env ws_id chat_id w).1.tables
unfolding delete
delete-IsDeleted env ws_id chat_id w c up there own fits =
    let act = query (delete_chat env (as_i64 chat_id)) in
    let run =
      guarded ws_id chat_id act w up
      ∙ ap (λ o. within ws_id act o w) there
      ∙ within-own ws_id act c w own
      ∙ query_up (delete_chat env (as_i64 chat_id)) w up in
    let (back, done) = delete_chat-IsDeleted (as_i64 chat_id) env w.tables c there fits in
    (
      ap (λ (r : Result AppError Chat × World). r.0) run ∙ ap lift_sql back,
      subst (λ (r : Result AppError Chat × World). IsDeleted (as_i64 chat_id) w.tables r.1.tables)
          (sym run) done,
    )
