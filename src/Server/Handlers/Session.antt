-- ===== src/Server/Handlers/Session.antt =====
-- From sign-up to the requests under the token that it gives: chat_server/src/handlers/auth.rs with
-- chat_core/src/middlewares/auth.rs and notify_server/src/lib.rs.
use chat.Base.{ℕ, ◌≡◌, refl, sym, ap, subst, ◌∙◌, Text, Option, some}
use chat.Core.{User}
use chat.Core.Jwt
use chat.Core.Jwt.{serialized, deserialized, IsSound, verify-sign}
use chat.Core.Auth.{verify_token_v2, verify_found, with_user, token_of}
use chat.Http.{Response, respond_with, auth_output}
use chat.Server.Error.{AppError, Result, ok, err, panic}
use chat.Server.Models.{CreateUser}
use chat.Server.World.{World, resume, pure, ◌>>=◌}
use chat.Server.Services.Msgs.{lift}
use chat.Server.Services.Users
use chat.Server.Services.Users.Signup.{IsRegistered, create-IsRegistered}
use chat.Server.Handlers.{App}
use chat.Server.Handlers.Accounts.{signup_handler, token_response, lift_jwt}
use chat.Server.Handlers.Router.{UserRoute, route, with_token, user_handler, verify_app_token}
use chat.Notify.Sse.{UserMap, sse_handler}
use chat.Notify.Router.{Outcome, listening, events}
use chat.Notify.Router

-- a response of that status, whose body is a token of the user
abbrev pub IsTokenOf : App → (status : ℕ) → User → Response → Text → Type 0
IsTokenOf app status user r token =
    (r ≡ respond_with status (auth_output token)) × (Jwt.sign app.keys user ≡ ok token)

pub token_response-ok :
    (app : App) (status : ℕ) (user : User) (w v : World) (r : Response)
    → token_response app status user w ≡ (ok r, v)
    → (token : Text) × IsTokenOf app status user r token × (v ≡ w)
unfolding token_response lift ◌>>=◌
token_response-ok app status user w v r e = signed (Jwt.sign app.keys user) refl e
  where
    signed :
        (s : Result Text Text)
        → Jwt.sign app.keys user ≡ s
        → resume (λ token. pure (respond_with status (auth_output token))) (lift_jwt s, w)
          ≡ (ok r, v)
        → (token : Text) × IsTokenOf app status user r token × (v ≡ w)
    signed (ok token) s e = (token, (cc e, s), cc e)
    signed (err x) s e = absurd (cc e)
    signed panic s e = absurd (cc e)

signup_handler-ok :
    (app : App) (input : CreateUser) (w v : World) (r : Response)
    → signup_handler app input w ≡ (ok r, v)
    → (user : User) × (Users.create app.env input w ≡ (ok user, v))
      × (token_response app 201 user v ≡ (ok r, v))
unfolding signup_handler ◌>>=◌
signup_handler-ok app input w v r e =
    made (Users.create app.env input w).0 (Users.create app.env input w).1 refl e
  where
    made :
        (c : Result AppError User) (x : World)
        → Users.create app.env input w ≡ (c, x)
        → resume (token_response app 201) (c, x) ≡ (ok r, v)
        → (user : User) × (Users.create app.env input w ≡ (ok user, v))
          × (token_response app 201 user v ≡ (ok r, v))
    made (ok user) x c e =
        let same = (token_response-ok app 201 user x v r e).2 in
        (
          user,
          c ∙ ap (λ y. (ok user, y)) (sym same),
          subst (λ y. token_response app 201 user y ≡ (ok r, v)) (sym same) e,
        )
    made (err x) y c e = absurd (cc e)
    made panic y c e = absurd (cc e)

-- the request under a verified bearer token, on both servers
pub admitted :
    (app : App) (token : Text) (user : User) (query : Option Text) (request : UserRoute) (x : World)
    → verify_app_token app token ≡ ok user
    → route app (with_token (some token) query request) x ≡ user_handler app user request x
unfolding route verify_token_v2 verify_found with_user token_of
admitted app token user query request x verified = rw verified refl

pub subscribed :
    (app : App) (token html : Text) (user : User) (query : Option Text) (fresh : ℕ)
    (users : UserMap)
    → Jwt.verify app.keys token ≡ ok user
    → Router.route app.keys html fresh (events (some token) query) users
      ≡ (listening (sse_handler user fresh users).0, (sse_handler user fresh users).1)
unfolding Router.route verify_token_v2 verify_found with_user token_of Router.verify_token
subscribed app token html user query fresh users verified = rw verified refl

-- With keys that verify what they have signed, and within the token's time: if `signup_handler`
-- returns a response, a user has signed up as `create` promises, the response has status 201 and a
-- token, and under that token as the bearer token every route of the chat server that needs one runs its handler as that user, and the
-- events of the notify server, with the same keys, are those of that user.
pub signup_handler-admitted :
    (app : App) (input : CreateUser) (w v : World) (r : Response)
    → IsSound app.keys
    → signup_handler app input w ≡ (ok r, v)
    → (user : User) × (token : Text) × IsRegistered app.env input w.tables.users user v.tables.users
      × (r ≡ respond_with 201 (auth_output token))
      × ((query : Option Text) (request : UserRoute) (x : World)
          → route app (with_token (some token) query request) x ≡ user_handler app user request x)
      × ((html : Text) (query : Option Text) (fresh : ℕ) (users : UserMap)
          → Router.route app.keys html fresh (events (some token) query) users
            ≡ (listening (sse_handler user fresh users).0, (sse_handler user fresh users).1))
unfolding verify_app_token
signup_handler-admitted app input w v r sound e =
    let (user, made, answered) = signup_handler-ok app input w v r e in
    let (token, signed, _) = token_response-ok app 201 user v v r answered in
    let registered : IsRegistered app.env input w.tables.users user v.tables.users =
      subst (λ (x : World). IsRegistered app.env input w.tables.users user x.tables.users)
        (ap (λ (x : Result AppError User × World). x.1) made)
        (create-IsRegistered app.env input w user
          (ap (λ (x : Result AppError User × World). x.0) made)) in
    let bare : deserialized (serialized user) ≡ user = rw (registered.returned) refl in
    let verified = verify-sign app.keys user token sound signed.1 ∙ ap (λ u. ok u) bare in
    (
      user,
      token,
      registered,
      signed.0,
      λ query request x. admitted app token user query request x verified,
      λ html query fresh users. subscribed app token html user query fresh users verified,
    )
