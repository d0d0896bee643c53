-- ===== src/Core/RequestId.antt =====
-- Request ids and server time: chat_core/src/middlewares/request_id.rs and server_time.rs. A
-- request is its headers; `next` is the rest of the stack.
pub mod Carried
use chat.Base.{ℕ, Text, codes, Option, none, some, ◌++◌}
use chat.Http.{Headers, Response, get, insert}
use chat.Strings.{to_text}

abbrev pub request_id_header : Text
request_id_header = codes "X-Request-Id"

abbrev pub server_time_header : Text
server_time_header = codes "X-Server-Time"

-- the id of a request, and its headers once it has one; `fresh` is the header value made of a new
-- UUID, if it can be made
unfoldable pub assign_id : Option Text → Headers → Option Text × Headers
assign_id fresh hs = elim (get request_id_header hs) [
  | some v ↦ (some v, hs)
  | none ↦ elim fresh [ some v ↦ (some v, insert request_id_header v hs) | none ↦ (none, hs) ]
]

abbrev pub stamp : Option Text → Response → Response
stamp none r = r
stamp (some v) r = record r { headers = insert request_id_header v r.headers }

-- `set_request_id`
unfoldable pub set_request_id : Option Text → (Headers → Response) → Headers → Response
set_request_id fresh next hs = let (id, hs') = assign_id fresh hs in stamp id (next hs')

-- `ServerTimeMiddleware::call`, with the microseconds that have gone by
unfoldable pub server_time : (elapsed : ℕ) → (Headers → Response) → Headers → Response
server_time elapsed next hs =
    let r = next hs in
    record r { headers = insert server_time_header (to_text elapsed ++ codes "us") r.headers }
