-- ===== src/Server/Handlers/Gate.antt =====
-- Who gets past the layers of the router (chat_server/src/lib.rs and middlewares/perm.rs).
use chat.Base.{
  ℕ, ◌≡◌, refl, sym, ◌∙◌, ◌⊎◌, inl, inr, eq_ℤ, is_any, as_i64, as_u64, Text, Bool, true, codes,
  false, ◌&&◌, Option, none, some, [], find,
}
use chat.Core.{User, Chat}
use chat.Core.Auth.{token_of, verify_token_v2, verify_found, with_user}
use chat.Http.{Response}
use chat.Server.Error.{AppError, permission_deny, status_of, Result, ok, err, panic, ok-injective}
use chat.Server.World.{World, Tables, query, ◌>>=◌}
use chat.Server.World.Triples.{Triple, Ends, Triple-query, Triple->>=, query_up}
use chat.Server.Sql.Chats.{select_membership}
use chat.Server.Services.Chats
use chat.Server.Handlers.{App, into_response}
use chat.Server.Handlers.Perm.{verify_chat_perm, admit}
use chat.Server.Handlers.Router.{
  UserRoute, ChatRoute, route, with_token, on_chat, user_handler, verify_app_token,
}

abbrev pub IsRefusal : Result Text Response → Type 0
IsRefusal (ok r) = (r.status ≡ 400) ⊎ (r.status ≡ 401)
IsRefusal (err e) = ⊥
IsRefusal panic = Unit

-- the token that a request presents: the bearer token, or without one that of the query
abbrev pub IsPresented : (bearer query : Option Text) → Text → Type 0
IsPresented bearer query token = (bearer ≡ some token) ⊎ ((bearer ≡ none) × (query ≡ some token))

IsPresented-token_of :
    (bearer query : Option Text) (token : Text)
    → token_of bearer query ≡ some token
    → IsPresented bearer query token
unfolding token_of
IsPresented-token_of (some t) query token e = inl e
IsPresented-token_of none (some t) token e = inr (refl, e)
IsPresented-token_of none none token e = absurd (cc e)

-- no chat of that id has the user among its members
abbrev pub IsOutsider : (chat_id : ℕ) → User → Tables → Type 0
IsOutsider chat_id user t =
    find (λ (c : Chat). eq_ℤ c.id (as_i64 chat_id) && is_any (as_i64 (as_u64 user.id)) c.members)
      t.chats
    ≡ none

module _ (app : App) (r : UserRoute) (w : World) where
  abbrev Answer : Type 0
  Answer = Result Text Response × World

  abbrev Gated : Option Text → Answer → Type 0
  Gated found answered =
      ((token : Text) × (user : User) × (found ≡ some token)
        × (verify_app_token app token ≡ ok user)
        × (answered ≡ user_handler app user r w))
      ⊎ ((refusal : Result Text Response) × (answered ≡ (refusal, w)) × IsRefusal refusal)

  with_user-Gated :
      (token : Text) (v : Result Text User)
      → verify_app_token app token ≡ v
      → Gated (some token) (
          with_user
            (λ r' w'. (ok r', w'))
            (λ w'. (panic, w'))
            (verify_app_token app)
            401
            (codes "parse Authorization header failed: ")
            v
            (λ user. user_handler app user r)
            w)
  unfolding with_user
  with_user-Gated token (ok user) e = inl (token, user, refl, e, refl)
  with_user-Gated token (err x) e = inr (_, refl, inr refl)
  with_user-Gated token panic e = inr (_, refl, tt)

  verify_found-Gated :
      (found : Option Text)
      → Gated found (
          verify_found
            (λ r' w'. (ok r', w'))
            (λ w'. (panic, w'))
            (verify_app_token app)
            found
            (λ user. user_handler app user r)
            w)
  unfolding verify_found
  verify_found-Gated none = inr (_, refl, inl refl)
  verify_found-Gated (some token) = with_user-Gated token _ refl

-- A request that needs a token either runs its handler as a user to whom its token (the bearer
-- token, or without one that of the query) is verified, or changes nothing and is answered with 400
-- or 401 or ends in a panic.
pub route-admits :
    (app : App) (bearer query : Option Text) (r : UserRoute) (w : World)
    → ((token : Text) × (user : User) × IsPresented bearer query token
        × (verify_app_token app token ≡ ok user)
        × (route app (with_token bearer query r) w ≡ user_handler app user r w))
      ⊎ ((refusal : Result Text Response) × (route app (with_token bearer query r) w ≡ (refusal, w))
          × IsRefusal refusal)
unfolding route verify_token_v2
route-admits app bearer query r w = elim (verify_found-Gated app r w (token_of bearer query)) [
  | inl (token, user, found, verified, answered) ↦
      inl (token, user, IsPresented-token_of bearer query token found, verified, answered)
  | inr refused ↦ inr refused
]

-- what is known once the membership test has been answered
abbrev Denied : Tables → Bool → Tables → Type 0
Denied t b u = (b ≡ false) × (u ≡ t)

module _ (chat_id : ℕ) (user : User) (t : Tables) (out : IsOutsider chat_id user t) where
  select_membership-none :
      (u : Tables)
      → u ≡ t
      → (select_membership (as_i64 chat_id) (as_i64 (as_u64 user.id)) u).0 ≡ ok none
  unfolding select_membership
  select_membership-none u e = rw (e, out) refl

  is_chat_member-Denied :
      Triple (λ u. u ≡ t) (Chats.is_chat_member chat_id (as_u64 user.id)) (Denied t) (λ u. u ≡ t)
  unfolding Chats.is_chat_member select_membership
  is_chat_member-Denied =
      Triple->>= (λ u. u ≡ t) (λ o u. (o ≡ none) × (u ≡ t)) (Denied t) (λ u. u ≡ t) _ _
        (Triple-query (λ u. u ≡ t) _ (λ o u. (o ≡ none) × (u ≡ t)) (λ u. u ≡ t)
          (record {
            skipped = λ u e. e;
            unheard = λ u e. e;
            heard =
                λ u o e h. (sym (ok-injective none o (sym (select_membership-none u e) ∙ h)), e);
          }))
        (λ o w p. (rw (p.0) refl, p.1))

  admit-Denied :
      (app : App) (next : World → Result Text Response × World) (b : Result AppError Bool)
      (w : World)
      → Ends (Denied t) (λ u. u ≡ t) b w.tables
      → (admit app next (b, w)).1.tables ≡ t
  unfolding admit
  admit-Denied app next (ok true) w p = absurd (cc (p.0))
  admit-Denied app next (ok false) w p = p.1
  admit-Denied app next (err e) w p = p
  admit-Denied app next panic w p = p

-- However the connection behaves, a request under `/chats/:id` whose token is verified as a user
-- who is not a member of that chat changes no table.
pub route-outsider :
    (app : App) (bearer query : Option Text) (token : Text) (user : User) (chat_id : ℕ)
    (r : ChatRoute) (w : World)
    → token_of bearer query ≡ some token
    → verify_app_token app token ≡ ok user
    → IsOutsider chat_id user w.tables
    → (route app (with_token bearer query (on_chat chat_id r)) w).1.tables ≡ w.tables
unfolding route verify_token_v2 verify_found with_user user_handler verify_chat_perm
route-outsider app bearer query token user chat_id r w here verified out =
    rw (here, verified)
      (admit-Denied chat_id user w.tables out app _ _ _
        (is_chat_member-Denied chat_id user w.tables out w refl))

-- With the statement of the membership test answered, a request under `/chats/:id` whose token is
-- verified as a user who is not a member of that chat gets the response of `PermissionDeny`, of
-- status 403, and changes nothing at all.
pub route-denies :
    (app : App) (bearer query : Option Text) (token : Text) (user : User) (chat_id : ℕ)
    (r : ChatRoute) (w : World)
    → token_of bearer query ≡ some token
    → verify_app_token app token ≡ ok user
    → IsOutsider chat_id user w.tables
    → w.link ≡ []
    → (route app (with_token bearer query (on_chat chat_id r)) w
        ≡ (ok (into_response app.env permission_deny), w))
      × ((into_response app.env permission_deny).status ≡ 403)
unfolding route verify_token_v2 verify_found with_user user_handler verify_chat_perm into_response
    Chats.is_chat_member ◌>>=◌ status_of admit
route-denies app bearer query token user chat_id r w here verified out up = (
  rw
      (
        here,
        verified,
        query_up (select_membership (as_i64 chat_id) (as_i64 (as_u64 user.id))) w up,
        select_membership-none chat_id user w.tables out w.tables refl,
      )
      (unfold select_membership in refl),
  refl,
)
