-- ===== src/Server/Book.antt =====
-- What users, chats and messages are to the clients, with no rows, orders of rows, sequences,
-- notifications or workspaces: the abstract state that chat_server/src/services keeps in its tables,
-- and the changes that it may undergo.
pub mod Statements
pub mod Writes
use chat.Base.{
  ℕ, ◌≤◌, ℤ, eq_ℤ, Text, text_eq, Bool, true, false, Option, none, some, List, [], ◌∷◌, ◌++◌, ◌≡◌,
  if◌then◌else◌, All, Distinct, length, has_key, any, select,
}
use chat.Core.{Chat, Message}
use chat.Server.Models.{UserRow}
use chat.Server.World.{Tables}
use chat.Server.Sql.Chats.{chat_by_id}
use chat.Server.Invariant.{user_key}

-- who is there, the emails taken, the chat of an id, the messages of a chat in the order they came
pub record Book : Type 0 where
  pub people : ℤ → Bool
  pub emails : Text → Bool
  pub rooms : ℤ → Option Chat
  pub log : ℤ → List Message

unfoldable pub book_of : Tables → Book
book_of t = record {
  people = λ z. has_key user_key z t.users;
  emails = λ e. any (λ (u : UserRow). text_eq u.email e) t.users;
  rooms = λ z. chat_by_id z t.chats;
  log = λ z. select (λ (m : Message). eq_ℤ m.chat_id z) t.messages;
}

-- a function changed at one argument
abbrev pub put : {A : Type 0} → ℤ → A → (ℤ → A) → ℤ → A
put id a f z = if eq_ℤ id z then a else f z

abbrev pub put_text : {A : Type 0} → Text → A → (Text → A) → Text → A
put_text e a f s = if text_eq e s then a else f s

-- One change, or none: a user joins under an id and an email not taken; two or more people, none twice,
-- get a chat under an id not taken; a chat gets another name; a chat ends with its messages; one of the
-- people posts in a chat.
pub data Change (b : Book) : Book → Type 0 where
  stayed : Change b b
  joined :
      (id : ℤ) (email : Text)
      → b.people id ≡ false
      → b.emails email ≡ false
      → Change b (record b { people = put id true b.people; emails = put_text email true b.emails })
  opened :
      (c : Chat)
      → b.rooms c.id ≡ none
      → All (λ z. b.people z ≡ true) c.members
      → Distinct c.members
      → 2 ≤ length c.members
      → Change b (record b { rooms = put c.id (some c) b.rooms })
  renamed :
      (id : ℤ) (c : Chat) (name : Option Text)
      → b.rooms id ≡ some c
      → Change b (record b { rooms = put id (some (record c { name = name })) b.rooms })
  closed :
      (id : ℤ) (c : Chat)
      → b.rooms id ≡ some c
      → Change b (record b { rooms = put id none b.rooms; log = put id [] b.log })
  posted :
      (m : Message) (c : Chat)
      → b.people m.sender_id ≡ true
      → b.rooms m.chat_id ≡ some c
      → Change b (record b { log = put m.chat_id (b.log m.chat_id ++ m ∷ []) b.log })

-- any number of changes, one after the other
pub data Changes (b : Book) : Book → Type 0 where
  none_yet : Changes b b
  then : {c d : Book} → Changes b c → Change c d → Changes b d
