-- ===== src/Core/Jwt.antt =====
-- Tokens: chat_core/src/utils/jwt.rs. The signature scheme of jwt_simple is a parameter.
use chat.Base.{ℕ, ℤ, ◌*◌, ◌≡◌, refl, ap, Text, codes, none}
use chat.Core.{User, Time}
use chat.Server.Error.{Result, ok, err, panic}

-- What serde writes of a user: the field with `#[serde(skip)]` is left out.
pub record Payload : Type 0 where
  pub id : ℤ
  pub ws_id : ℤ
  pub fullname : Text
  pub email : Text
  pub created_at : Time

abbrev pub serialized : User → Payload
serialized u = record {
  id = u.id;
  ws_id = u.ws_id;
  fullname = u.fullname;
  email = u.email;
  created_at = u.created_at;
}

-- The skipped field is read as its default.
abbrev pub deserialized : Payload → User
deserialized p = record {
  id = p.id;
  ws_id = p.ws_id;
  fullname = p.fullname;
  email = p.email;
  password_hash = none;
  created_at = p.created_at;
}

pub record Claims : Type 0 where
  pub custom : Payload
  pub valid_for : ℕ
  pub issuer : Text
  pub audience : Text

pub record VerificationOptions : Type 0 where
  pub allowed_issuer : Text
  pub allowed_audience : Text

-- A pair of keys of jwt_simple: signing, and the verification under options.
pub record Keys : Type 0 where
  pub sign_claims : Claims → Result Text Text
  pub verify_claims : Text → VerificationOptions → Result Text Claims

abbrev pub jwt_duration : ℕ
jwt_duration = 60 * 60 * 24 * 7

abbrev pub jwt_iss : Text
jwt_iss = codes "chat_server"

abbrev pub jwt_aud : Text
jwt_aud = codes "chat_web"

-- `EncodingKey::sign`
unfoldable pub sign : Keys → User → Result Text Text
sign keys user = keys.sign_claims (record {
  custom = serialized user;
  valid_for = jwt_duration;
  issuer = jwt_iss;
  audience = jwt_aud;
})

abbrev pub custom_of : Result Text Claims → Result Text User
custom_of (ok c) = ok (deserialized c.custom)
custom_of (err e) = err e
custom_of panic = panic

-- `DecodingKey::verify`
unfoldable pub verify : Keys → Text → Result Text User
verify keys token =
    custom_of
      (keys.verify_claims token (record { allowed_issuer = jwt_iss; allowed_audience = jwt_aud }))

-- What jwt_simple promises for a token within its time: under options that allow its issuer and
-- its audience, it verifies to its claims.
abbrev pub IsSound : Keys → Type 0
IsSound keys =
    (c : Claims) (o : VerificationOptions) (token : Text)
    → keys.sign_claims c ≡ ok token
    → c.issuer ≡ o.allowed_issuer
    → c.audience ≡ o.allowed_audience
    → keys.verify_claims token o ≡ ok c

-- Within its time, a token that the chat server signs is verified as the user that it was signed
-- for, less the password hash.
pub verify-sign :
    (keys : Keys) (user : User) (token : Text)
    → IsSound keys
    → sign keys user ≡ ok token
    → verify keys token ≡ ok (deserialized (serialized user))
unfolding sign verify
verify-sign keys user token sound signed = ap custom_of (sound _ _ token signed refl refl)
