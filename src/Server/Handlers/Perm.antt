-- ===== src/Server/Handlers/Perm.antt =====
-- `verify_chat_perm`: chat_server/src/middlewares/perm.rs.
use chat.Base.{ℕ, as_u64, Text, Bool, true, false}
use chat.Core.{User}
use chat.Http.{Response}
use chat.Server.Error.{AppError, permission_deny, Result, ok, err, panic}
use chat.Server.World.{World}
use chat.Server.Services.Chats
use chat.Server.Handlers.{App, into_response}

-- what becomes of the membership test's result
unfoldable pub admit :
    App
    → (World → Result Text Response × World)
    → Result AppError Bool × World
    → Result Text Response × World
admit app next (ok true, w) = next w
admit app next (ok false, w) = (ok (into_response app.env permission_deny), w)
admit app next (err e, w) = (ok (into_response app.env e), w)
admit app next (panic, w) = (panic, w)

unfoldable pub verify_chat_perm :
    App
    → (chat_id : ℕ) → User
    → (World → Result Text Response × World)
    → World
    → Result Text Response × World
verify_chat_perm app chat_id user next w =
    admit app next (Chats.is_chat_member chat_id (as_u64 user.id) w)
