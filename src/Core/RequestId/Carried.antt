-- ===== src/Core/RequestId/Carried.antt =====
-- How a request id goes through the stack.
use chat.Base.{◌≡◌, refl, Text, Option, none, some, inl, inr, Option-cases}
use chat.Http.{Headers, Response, get, insert, get-insert_self}
use chat.Core.RequestId.{request_id_header, assign_id, set_request_id}

abbrev pub given_or : Text → Option Text → Text
given_or fresh none = fresh
given_or fresh (some v) = v

-- what goes on, and what comes back, under one id
abbrev pub IsCarried : Text → (Headers → Response) → Headers → Text → Type 0
IsCarried fresh next hs v =
    (get request_id_header (assign_id (some fresh) hs).1 ≡ some v)
    × (get request_id_header (set_request_id (some fresh) next hs).headers ≡ some v)

assign_id-fresh :
    (fresh : Text) (hs : Headers)
    → get request_id_header hs ≡ none
    → assign_id (some fresh) hs ≡ (some fresh, insert request_id_header fresh hs)
unfolding assign_id
assign_id-fresh fresh hs absent = rw (absent, assign_id) refl

assign_id-given :
    (fresh v : Text) (hs : Headers)
    → get request_id_header hs ≡ some v
    → assign_id (some fresh) hs ≡ (some v, hs)
unfolding assign_id
assign_id-given fresh v hs present = rw (present, assign_id) refl

-- Where a fresh header value can be made, the rest of the stack and the caller see the same request
-- id: the one that the request came with, or else the fresh one.
pub set_request_id-IsCarried :
    (fresh : Text) (next : Headers → Response) (hs : Headers)
    → IsCarried fresh next hs (given_or fresh (get request_id_header hs))
unfolding set_request_id
set_request_id-IsCarried fresh next hs = elim (Option-cases (get request_id_header hs)) [
  | inl absent ↦
      rw (absent, assign_id-fresh fresh hs absent)
        (get-insert_self request_id_header fresh _, get-insert_self request_id_header fresh _)
  | inr (v, present) ↦
      rw (present, assign_id-given fresh v hs present)
        (present, get-insert_self request_id_header v _)
]
