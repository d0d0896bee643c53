-- ===== src/Core.antt =====
-- The data that both servers share: chat_core/src/lib.rs.
pub mod Jwt
pub mod Auth
pub mod RequestId
use chat.Base.{ℕ, ℤ, Text, Option, none, List}

-- `DateTime<Utc>`: the code only copies it, so a count of microseconds stands for it.
abbrev pub Time : Type 0
Time = ℕ

pub record User : Type 0 where
  pub id : ℤ
  pub ws_id : ℤ
  pub fullname : Text
  pub email : Text
  pub password_hash : Option Text
  pub created_at : Time

pub data ChatType : Type 0 where
  single group private_channel public_channel : ChatType

pub record Chat : Type 0 where
  pub id : ℤ
  pub ws_id : ℤ
  pub name : Option Text
  pub type : ChatType
  pub members : List ℤ
  pub created_at : Time

pub record Message : Type 0 where
  pub id : ℤ
  pub chat_id : ℤ
  pub sender_id : ℤ
  pub content : Text
  pub files : List Text
  pub created_at : Time

-- `User::new`; `now` is what `chrono::Utc::now()` reads
unfoldable pub user_new : Time → ℤ → Text → Text → User
user_new now id fullname email = record {
  id = id;
  ws_id = ℤ.pos 0;
  fullname = fullname;
  email = email;
  password_hash = none;
  created_at = now;
}
