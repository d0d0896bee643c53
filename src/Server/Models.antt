-- ===== src/Server/Models.antt =====
-- The rows and inputs of the services: chat_server/src/models/{user,workspace}.rs and the input
-- structs of chat_server/src/services/{chat,user,msg}.rs.
use chat.Base.{ℕ, ℤ, Text, Option, List, Bool}
use chat.Core.{Time}

pub record ChatUser : Type 0 where
  pub id : ℤ
  pub fullname : Text
  pub email : Text

pub record Workspace : Type 0 where
  pub id : ℤ
  pub name : Text
  pub owner_id : ℤ
  pub created_at : Time

-- a row of the table `users`, whose `password_hash` is NOT NULL
pub record UserRow : Type 0 where
  pub id : ℤ
  pub ws_id : ℤ
  pub fullname : Text
  pub email : Text
  pub password_hash : Text
  pub created_at : Time

pub record CreateChat : Type 0 where
  pub name : Option Text
  pub members : List ℤ
  pub public : Bool

pub record UpdateChat : Type 0 where
  pub name : Option Text

pub record CreateUser : Type 0 where
  pub fullname : Text
  pub email : Text
  pub workspace : Text
  pub password : Text

pub record SigninUser : Type 0 where
  pub email : Text
  pub password : Text

pub record CreateMessage : Type 0 where
  pub content : Text
  pub files : List Text

pub record ListMessageOption : Type 0 where
  pub last_id : Option ℕ
  pub limit : ℕ
