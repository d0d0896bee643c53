-- ===== src/Tests/Tokens.antt =====
-- A pair of keys that signs the claims of one user, and reads them back.
use chat.Base.{
  ◌≡◌, refl, Bool, true, ◌&&◌, eq_ℤ, eq_ℤ_iff, text_eq, text_eq_iff, codes, ◌==◌, if◌then◌else◌,
  arith, Bool-cases, inl, inr,
}
use chat.Core.{User}
use chat.Core.Jwt.{Keys, Claims, IsSound, serialized, jwt_duration}
use chat.Server.Error.{ok, err}

module _ (who : User) where
  abbrev is_theirs : Claims → Bool
  is_theirs c =
      eq_ℤ c.custom.id who.id
      && (eq_ℤ c.custom.ws_id who.ws_id
          && (text_eq c.custom.fullname who.fullname
              && (text_eq c.custom.email who.email
                  && (c.custom.created_at == who.created_at && (c.valid_for == jwt_duration)))))

  abbrev pub narrow_keys : Keys
  narrow_keys = record {
    sign_claims = λ c. if is_theirs c then ok (codes "token") else err (codes "stranger");
    verify_claims = λ token o. ok (record {
      custom = serialized who;
      valid_for = jwt_duration;
      issuer = o.allowed_issuer;
      audience = o.allowed_audience;
    });
  }

  fields :
      (c : Claims)
      → is_theirs c ≡ true
      → (c.custom.id ≡ who.id)
        × (c.custom.ws_id ≡ who.ws_id)
        × (c.custom.fullname ≡ who.fullname)
        × (c.custom.email ≡ who.email)
        × (c.custom.created_at ≡ who.created_at)
        × (c.valid_for ≡ jwt_duration)
  fields c h = (
    ground (arith, eq_ℤ_iff c.custom.id who.id),
    ground (arith, eq_ℤ_iff c.custom.ws_id who.ws_id),
    ground (arith, text_eq_iff c.custom.fullname who.fullname),
    ground (arith, text_eq_iff c.custom.email who.email),
    ground arith,
    ground arith,
  )

  pub narrow_keys-IsSound : IsSound narrow_keys
  narrow_keys-IsSound c o token signed i a = elim (Bool-cases (is_theirs c)) [
    | inl same ↦ let (x, y, z, u, v, n) = fields c same in rw (x, y, z, u, v, n, i, a) refl
    | inr other ↦ absurd (cc (rw other at signed))
  ]
