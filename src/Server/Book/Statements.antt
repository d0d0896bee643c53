-- ===== src/Server/Book/Statements.antt =====
-- Each statement of chat_server/src/services that writes makes at most one change of the book.
use chat.Base.{
  ℤ, eq_ℤ, eq_ℤ_iff, ◌≡◌, refl, sym, ap, subst, Text, text_eq, true, false, ◌||◌, Option, none,
  some, List, [], ◌∷◌, ◌++◌, select, any, has_key, arith, codes, Bool-cases, inl, inr,
}
use chat.Core.{Chat, Message}
use chat.Server.Models.{UserRow, Workspace}
use chat.Server.World.{Env, Tables, chat_updated}
use chat.Server.Sql.Rows.{sendable}
use chat.Server.Sql.Users.{put_user}
use chat.Server.Sql.Chats.{chat_by_id, put_chat, notify}
use chat.Server.Invariant.{user_key, chat_key, IsRoster}
use chat.Server.Book.{Book, book_of, put, put_text, Change, stayed, joined, opened}

-- two books with the same entries are the same
pub book_path :
    (b c : Book)
    → ((z : ℤ) → b.people z ≡ c.people z)
    → ((e : Text) → b.emails e ≡ c.emails e)
    → ((z : ℤ) → b.rooms z ≡ c.rooms z)
    → ((z : ℤ) → b.log z ≡ c.log z)
    → b ≡ c
book_path b c p e r l i = record {
  people = λ z. p z i;
  emails = λ s. e s i;
  rooms = λ z. r z i;
  log = λ z. l z i;
}

pub Change-same :
    (t u : Tables)
    → u.users ≡ t.users
    → u.chats ≡ t.chats
    → u.messages ≡ t.messages
    → Change (book_of t) (book_of u)
unfolding book_of
Change-same t u us cs ms =
    subst (Change (book_of t))
      (book_path (book_of t) (book_of u) (λ z. ap (has_key user_key z) (sym us))
        (λ e. ap (any (λ (r : UserRow). text_eq r.email e)) (sym us))
        (λ z. ap (chat_by_id z) (sym cs))
        (λ z. ap (select (λ (m : Message). eq_ℤ m.chat_id z)) (sym ms)))
      stayed

people-snoc :
    (r : UserRow) (us : List UserRow) (z : ℤ)
    → put r.id true (λ x. has_key user_key x us) z ≡ has_key user_key z (us ++ r ∷ [])
people-snoc r [] z = ground arith
people-snoc r (u ∷ us) z = ground (arith, people-snoc r us z)

emails-snoc :
    (r : UserRow) (us : List UserRow) (e : Text)
    → put_text r.email true (λ s. any (λ (u : UserRow). text_eq u.email s) us) e
      ≡ any (λ (u : UserRow). text_eq u.email e) (us ++ r ∷ [])
emails-snoc r [] e = ground arith
emails-snoc r (u ∷ us) e = ground (arith, emails-snoc r us e)

rooms-snoc :
    (c : Chat) (cs : List Chat) (z : ℤ)
    → has_key chat_key c.id cs ≡ false
    → put c.id (some c) (λ x. chat_by_id x cs) z ≡ chat_by_id z (cs ++ c ∷ [])
unfolding chat_by_id
rooms-snoc c [] z h = ground arith
rooms-snoc c (x ∷ cs) z h =
    ground (arith, rooms-snoc c cs z, eq_ℤ_iff c.id z, eq_ℤ_iff x.id z, eq_ℤ_iff x.id c.id)

pub log-snoc :
    (m : Message) (ms : List Message) (z : ℤ)
    → put m.chat_id
        (select (λ (x : Message). eq_ℤ x.chat_id m.chat_id) ms ++ m ∷ [])
        (λ y. select (λ (x : Message). eq_ℤ x.chat_id y) ms)
        z
      ≡ select (λ (x : Message). eq_ℤ x.chat_id z) (ms ++ m ∷ [])
log-snoc m [] z = ground arith
log-snoc m (x ∷ ms) z = ground (
  arith,
  log-snoc m ms z,
  eq_ℤ_iff m.chat_id z,
  eq_ℤ_iff x.chat_id z,
  eq_ℤ_iff x.chat_id m.chat_id,
)

pub room_free : (id : ℤ) (cs : List Chat) → has_key chat_key id cs ≡ false → chat_by_id id cs ≡ none
unfolding chat_by_id
room_free id [] h = refl
room_free id (c ∷ cs) h = ground (arith, room_free id cs)

-- a book reached by a change, and the tables that show it
pub changed : (b c d : Book) → Change b c → c ≡ d → Change b d
changed b c d x e = subst (Change b) e x

module _ (t : Tables) where
  joined-Change :
      (r : UserRow)
      → any (λ (u : UserRow). text_eq u.email r.email || eq_ℤ u.id r.id) t.users ≡ false
      → Change (book_of t) (book_of (record t { users = t.users ++ r ∷ [] }))
  unfolding book_of
  joined-Change r free =
      changed _ _ _ (joined r.id r.email (id_free t.users free) (email_free t.users free))
        (book_path _ _ (people-snoc r t.users) (emails-snoc r t.users) (λ z. refl) (λ z. refl))
    where
      id_free :
          (us : List UserRow)
          → any (λ (u : UserRow). text_eq u.email r.email || eq_ℤ u.id r.id) us ≡ false
          → has_key user_key r.id us ≡ false
      id_free [] h = refl
      id_free (u ∷ us) h = ground (arith, id_free us)

      email_free :
          (us : List UserRow)
          → any (λ (u : UserRow). text_eq u.email r.email || eq_ℤ u.id r.id) us ≡ false
          → any (λ (u : UserRow). text_eq u.email r.email) us ≡ false
      email_free [] h = refl
      email_free (u ∷ us) h = ground (arith, email_free us)

  pub put_user-Change : (o : Option UserRow) → Change (book_of t) (book_of (put_user o t).1)
  unfolding put_user
  put_user-Change none = stayed
  put_user-Change (some r) =
      elim (Bool-cases (any (λ (u : UserRow). text_eq u.email r.email || eq_ℤ u.id r.id) t.users)) [
        | inl taken ↦ rw taken stayed
        | inr free ↦
            rw free (elim (Bool-cases (any (λ (w : Workspace). eq_ℤ w.id r.ws_id) t.workspaces)) [
              | inl home ↦ rw home (joined-Change r free)
              | inr homeless ↦ rw homeless stayed
            ])
      ]

  pub put_chat-Change :
      (env : Env) (o : Option Chat)
      → ((c : Chat) → o ≡ some c → IsRoster t.users c.members)
      → Change (book_of t) (book_of (put_chat env o t).1)
  unfolding put_chat notify
  put_chat-Change env none roster = stayed
  put_chat-Change env (some c) roster = elim (Bool-cases (has_key chat_key c.id t.chats)) [
    | inl taken ↦ rw taken stayed
    | inr free ↦
        rw free (elim (Bool-cases (any (λ (w : Workspace). eq_ℤ w.id c.ws_id) t.workspaces)) [
          | inr homeless ↦ rw homeless stayed
          | inl home ↦
              rw home
                (elim (Bool-cases (sendable env (chat_updated (codes "INSERT") none (some c)))) [
                  | inr long ↦ rw long stayed
                  | inl fits ↦ rw fits (opened-Change free)
                ])
        ])
  ]
    where
      opened-Change :
          has_key chat_key c.id t.chats ≡ false
          → Change (book_of t) (
              book_of (record t {
                chats = t.chats ++ c ∷ [];
                notices = t.notices ++ chat_updated (codes "INSERT") none (some c) ∷ [];
              }))
      opened-Change free =
          let r = roster c refl in
          unfold book_of in
          changed _ _ _ (opened c (room_free c.id t.chats free) r.known r.once r.enough)
            (book_path _ _ (λ z. refl) (λ e. refl) (λ z. rooms-snoc c t.chats z free) (λ z. refl))
