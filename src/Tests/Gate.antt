-- ===== src/Tests/Gate.antt =====
-- The layers of the router at concrete requests.
use chat.Base.{◌≡◌, refl, as_i64, as_u64, codes, Text, none, some, [], ◌∷◌, ◌⊎◌}
use chat.Samples.{some_app, quiet, few_rows, carol}
use chat.Core.{User}
use chat.Core.Auth.{token_of}
use chat.Core.RequestId.{request_id_header}
use chat.Core.RequestId.Carried.{set_request_id-IsCarried, IsCarried, given_or}
use chat.Http.{Headers, Response, get, respond_with, text}
use chat.Server.Error.{Result, ok, permission_deny}
use chat.Server.World.{World, refused}
use chat.Server.Handlers.{into_response}
use chat.Server.Handlers.Router.{
  route, with_token, on_chat, get_chat, delete_chat, list_users, user_handler, verify_app_token,
}
use chat.Server.Handlers.Gate.{
  IsOutsider, IsPresented, IsRefusal, route-admits, route-outsider, route-denies,
}

abbrev cut_off : World
cut_off = record quiet { link = refused ∷ [] }

carol_token : token_of none (some (codes "carol")) ≡ some (codes "carol")
unfolding token_of
carol_token = refl

carol_verified : verify_app_token some_app (codes "carol") ≡ ok carol
unfolding verify_app_token chat.Core.Jwt.verify
carol_verified = refl

carol-IsOutsider : IsOutsider 1 carol few_rows
unfolding as_i64 as_u64
carol-IsOutsider = refl

route-admits_example :
    ((token : Text) × (user : User) × IsPresented none (some (codes "carol")) token
      × (verify_app_token some_app token ≡ ok user)
      × (route some_app (with_token none (some (codes "carol")) list_users) quiet
          ≡ user_handler some_app user list_users quiet))
    ⊎ ((refusal : Result Text Response) × (route some_app
            (with_token none (some (codes "carol")) list_users)
            quiet
          ≡ (refusal, quiet))
        × IsRefusal refusal)
route-admits_example = route-admits some_app none (some (codes "carol")) list_users quiet

route-outsider_example :
    (route some_app
      (with_token none (some (codes "carol")) (on_chat 1 delete_chat))
      cut_off).1.tables
    ≡ few_rows
route-outsider_example =
    route-outsider some_app none (some (codes "carol")) (codes "carol") carol 1 delete_chat cut_off
      carol_token carol_verified carol-IsOutsider

route-denies_example :
    (route some_app (with_token none (some (codes "carol")) (on_chat 1 get_chat)) quiet
      ≡ (ok (into_response some_app.env permission_deny), quiet))
    × ((into_response some_app.env permission_deny).status ≡ 403)
route-denies_example =
    route-denies some_app none (some (codes "carol")) (codes "carol") carol 1 get_chat quiet
      carol_token carol_verified carol-IsOutsider refl

abbrev answered_with : Headers → Response
answered_with hs = respond_with 200 (text (codes "index"))

set_request_id-IsCarried_example :
    IsCarried
      (codes "new")
      answered_with
      ((request_id_header, codes "old") ∷ [])
      (given_or (codes "new") (get request_id_header ((request_id_header, codes "old") ∷ [])))
set_request_id-IsCarried_example =
    set_request_id-IsCarried (codes "new") answered_with ((request_id_header, codes "old") ∷ [])
