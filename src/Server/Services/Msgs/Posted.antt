-- ===== src/Server/Services/Msgs/Posted.antt =====
-- What `MsgService::create` (chat_server/src/services/msg.rs) stores and announces.
use chat.Base.{
  All, ℕ, ℤ, pos, ◌≡◌, refl, sym, ap, subst, ◌∙◌, as_i64, Text, Option, none, some, List, [], ◌∷◌,
  ◌++◌, arith, Option-cases, inl, inr, ◌+◌,
}
use chat.Core.{Chat, Message}
use chat.Server.Models.{CreateMessage}
use chat.Server.Error.{AppError, Result, ok, err, panic}
use chat.Server.World.{Env, World, Tables, ◌>>◌, chat_message_created}
use chat.Server.World.Triples.{Triple, Triple->>=, Triple-query, Ends, Ends-ok}
use chat.Server.Sql.Rows.{nextval}
use chat.Server.Sql.Chats.{chat_by_id}
use chat.Server.Sql.Messages.{insert_message, put_message, announce}
use chat.Server.Invariant.Messages.{nextval-eq_pos}
use chat.Server.Services.Msgs.{create, create_with, check_files}
use chat.Server.Services.Msgs.Attached.{Checks, IsOnDisk, check_files-Checks}

-- What an INSERT INTO messages returned, and what it did to the tables `t`.
pub record IsPosted (chat_id sender_id : ℤ) (content : Text) (files : List Text) (t : Tables)
    (m : Message) (u : Tables) : Type 0 where
  pub numbered : m.id ≡ pos t.messages_seq
  pub chat_id_same : m.chat_id ≡ chat_id
  pub sender_id_same : m.sender_id ≡ sender_id
  pub content_same : m.content ≡ content
  pub files_same : m.files ≡ files
  pub stored : u.messages ≡ t.messages ++ m ∷ []
  pub told :
      (c : Chat) × (chat_by_id chat_id t.chats ≡ some c)
      × (u.notices ≡ t.notices ++ chat_message_created m c.members ∷ [])

announce-ok :
    (env : Env) (t : Tables) (m r : Message) (o : Option Chat)
    → (announce env r o t).0 ≡ ok m
    → (r ≡ m)
      × ((announce env r o t).1.messages ≡ t.messages ++ r ∷ [])
      × ((c : Chat) × (o ≡ some c)
          × ((announce env r o t).1.notices ≡ t.notices ++ chat_message_created r c.members ∷ []))
unfolding announce
announce-ok env t m r none e = absurd (cc e)
announce-ok env t m r (some c) e = (ground arith, ground arith, (c, refl, ground arith))

put_message-ok :
    (env : Env) (t : Tables) (m r : Message)
    → (put_message env r t).0 ≡ ok m
    → (put_message env r t ≡ announce env r (chat_by_id r.chat_id t.chats) t)
unfolding put_message
put_message-ok env t m r e = ground arith

module _ (env : Env) (chat_id sender_id : ℤ) (content : Text) (files : List Text) where
  insert_message-IsPosted :
      (t : Tables) (m : Message)
      → (insert_message env chat_id sender_id content files t).0 ≡ ok m
      → IsPosted chat_id sender_id content files t m
          (insert_message env chat_id sender_id content files t).1
  unfolding insert_message
  insert_message-IsPosted t m e = elim (Option-cases (nextval t.messages_seq)) [
    | inl spent ↦ absurd (ground arith)
    | inr (id, issued) ↦
        let r : Message = record {
          id = id;
          chat_id = chat_id;
          sender_id = sender_id;
          content = content;
          files = files;
          created_at = t.clock;
        } in
        let u = record t { messages_seq = t.messages_seq + 1 } in
        let e' : (put_message env r u).0 ≡ ok m = rw (issued, insert_message) at e in
        let put = put_message-ok env u m r e' in
        let (same, stored, (c, there, told)) =
          announce-ok env u m r _ (subst (λ x. x.0 ≡ ok m) put e') in
        rw (issued, insert_message, put)
          (subst
            (λ x.
              IsPosted chat_id sender_id content files t x
                (announce env r (chat_by_id chat_id t.chats) u).1)
            same
            (record {
              numbered = nextval-eq_pos t.messages_seq id issued;
              chat_id_same = refl;
              sender_id_same = refl;
              content_same = refl;
              files_same = refl;
              stored = stored;
              told = (c, there, told);
            }))
  ]

module _ (env : Env) (base_dir : Text) (input : CreateMessage) (chat_id user_id : ℕ)
    (t : Tables) where
  abbrev Posted : Message → Tables → Type 0
  Posted = IsPosted (as_i64 chat_id) (as_i64 user_id) input.content input.files t

  check_files-same :
      Triple (λ u. u ≡ t) (check_files env base_dir input.files) (λ _ u. u ≡ t) (λ _. Unit)
  check_files-same w e = left _ (check_files-Checks env base_dir w input.files)
    where
      left :
          (r : Result AppError (Unit {0}) × World)
          → Checks (All (IsOnDisk env base_dir w) input.files) w r
          → Ends (λ _ u. u ≡ t) (λ _. Unit) r.0 r.1.tables
      left (ok _, v) (h, s) = ap (λ (x : World). x.tables) s ∙ e
      left (err x, v) h = tt
      left (panic, v) h = tt

  create_with-Posted :
      (content : Text)
      → input.content ≡ content
      → Triple
          (λ u. u ≡ t)
          (create_with env base_dir input content chat_id user_id)
          Posted
          (λ _. Unit)
  unfolding create_with ◌>>◌
  create_with-Posted [] e = λ w p. tt
  create_with-Posted (c ∷ s) e =
      Triple->>= (λ u. u ≡ t) (λ _ u. u ≡ t) Posted (λ _. Unit) _ _ check_files-same
        (λ _.
          Triple-query (λ u. u ≡ t) _ Posted (λ _. Unit)
            (record {
              skipped = λ u p. tt;
              unheard = λ u p. tt;
              heard = λ u m p h.
                  subst
                    (λ x.
                      IsPosted (as_i64 chat_id) (as_i64 user_id) x input.files t m
                        (insert_message env (as_i64 chat_id) (as_i64 user_id) (c ∷ s) input.files
                          u).1)
                    (sym e)
                    (subst
                      (λ x.
                        IsPosted (as_i64 chat_id) (as_i64 user_id) (c ∷ s) input.files x m
                          (insert_message env (as_i64 chat_id) (as_i64 user_id) (c ∷ s) input.files
                            u).1)
                      p
                      (insert_message-IsPosted env (as_i64 chat_id) (as_i64 user_id) (c ∷ s)
                        input.files u m h));
            }))

-- If `create` returns a message, whatever the connection did, it is of the chat, the sender, the
-- content and the files asked for, under the next id of the sequence; the table of messages has it as
-- its only new row; its chat is stored; and the one new notification carries the message and that
-- chat's members.
pub create-IsPosted :
    (env : Env) (base_dir : Text) (input : CreateMessage) (chat_id user_id : ℕ) (w : World)
    (m : Message)
    → (create env base_dir input chat_id user_id w).0 ≡ ok m
    → IsPosted
        (as_i64 chat_id)
        (as_i64 user_id)
        input.content
        input.files
        w.tables
        m
        (create env base_dir input chat_id user_id w).1.tables
unfolding create
create-IsPosted env base_dir input chat_id user_id w m e =
    Ends-ok _ (λ _. Unit) _ m _
      (create_with-Posted env base_dir input chat_id user_id w.tables input.content refl w refl) e
