-- ===== src/Server/Handlers/Signin.antt =====
-- From sign-in to the requests under the token that it gives: `signin_handler` of
-- chat_server/src/handlers/auth.rs with chat_core/src/middlewares/auth.rs and notify_server/src/lib.rs.
use chat.Base.{
  ℕ, ◌≡◌, ◌⊎◌, sym, ap, inl, inr, true, false, Bool-cases, Text, codes, Option, some, [],
}
use chat.Core.{User}
use chat.Core.Jwt.{IsSound, verify-sign}
use chat.Http.{Response, respond_with, auth_output, error}
use chat.Server.Error.{AppError, Result, ok, ok-injective}
use chat.Server.Models.{SigninUser, UserRow}
use chat.Server.World.{World, ◌>>=◌}
use chat.Server.Sql.Users.{user_by_email, user_returned}
use chat.Server.Services.Users.Signin.{verify-user_by_email}
use chat.Server.Handlers.{App}
use chat.Server.Handlers.Accounts.{signin_handler, signed_in}
use chat.Server.Handlers.Router.{UserRoute, route, with_token, user_handler, verify_app_token}
use chat.Server.Handlers.Session.{token_response-ok, admitted, subscribed}
use chat.Notify.Sse.{UserMap, sse_handler}
use chat.Notify.Router.{listening, events}
use chat.Notify.Router

-- Both servers let the bearer of the token in as the user.
pub record IsLetIn (app : App) (token : Text) (user : User) : Type 0 where
  pub by_chat :
      (query : Option Text) (request : UserRoute) (x : World)
      → route app (with_token (some token) query request) x ≡ user_handler app user request x
  pub by_notify :
      (html : Text) (query : Option Text) (fresh : ℕ) (users : UserMap)
      → Router.route app.keys html fresh (events (some token) query) users
        ≡ (listening (sse_handler user fresh users).0, (sse_handler user fresh users).1)

signed_in-ok :
    (app : App) (row : UserRow) (w v : World) (r : Response)
    → IsSound app.keys
    → signed_in app (some (user_returned row)) w ≡ (ok r, v)
    → (v ≡ w)
      × (token : Text) × (r ≡ respond_with 200 (auth_output token))
      × IsLetIn app token (user_returned row)
unfolding signed_in verify_app_token
signed_in-ok app row w v r sound e =
    let (token, signed, same) = token_response-ok app 200 (user_returned row) w v r e in
    let verified = verify-sign app.keys (user_returned row) token sound signed.1 in
    (
      same,
      token,
      signed.0,
      record {
        by_chat =
            λ query request x. admitted app token (user_returned row) query request x verified;
        by_notify = λ html query fresh users.
            subscribed app token html (user_returned row) query fresh users verified;
      },
    )

-- With keys that verify what they have signed, within the token's time, the statement answered, the
-- email that of a user, and a stored hash that argon2 can parse: if `signin_handler` returns a
-- response, it has changed nothing, and either argon2 refuses the password and the response is 403
-- with the message, or argon2 accepts it and the response is 200 with a token, and with that token as
-- the bearer token every route of the chat server that needs one runs its handler as the user of that
-- email, less the password hash, and the events of the notify server are that user's.
pub signin_handler-admitted :
    (app : App) (input : SigninUser) (w v : World) (row : UserRow) (parsed : Text) (r : Response)
    → IsSound app.keys
    → w.link ≡ []
    → user_by_email input.email w.tables.users ≡ some row
    → app.env.argon2_parse row.password_hash ≡ ok parsed
    → signin_handler app input w ≡ (ok r, v)
    → (v ≡ w)
      × (((app.env.argon2_verify input.password parsed ≡ false)
            × (r ≡ respond_with 403 (error (codes "Invalid email or password"))))
          ⊎ ((app.env.argon2_verify input.password parsed ≡ true)
              × (token : Text) × (r ≡ respond_with 200 (auth_output token))
              × IsLetIn app token (user_returned row)))
unfolding signin_handler signed_in ◌>>=◌
signin_handler-admitted app input w v row parsed r sound up there parse e =
    let read = verify-user_by_email app.env input w row parsed up there parse in
    elim (Bool-cases (app.env.argon2_verify input.password parsed)) [
      | inl accepted ↦
          let (same, token, answer, let_in) =
            signed_in-ok app row w v r sound (rw (read, accepted) at e) in
          (same, inr (accepted, token, answer, let_in))
      | inr refused ↦
          let answered = rw (read, refused) at e in
          (
            sym (ap (λ (x : Result AppError Response × World). x.1) answered),
            inl (
              refused,
              sym (ok-injective _ _ (ap (λ (x : Result AppError Response × World). x.0) answered)),
            ),
          )
    ]
