-- ===== src/Notify/Affected.antt =====
-- Who is told of a change of a chat: `get_affected_chat_user_ids`.
use chat.Base.{
  ℕ, ◌≡◌, refl, sym, ◌∙◌, ◌⊎◌, inl, inr, as_u64, Text, codes, Bool, true, is_some, ◌&&◌, false,
  ◌||◌, Option, none, some, [], map, arith, Bool-cases,
}
use chat.Core.{Chat}
use chat.Server.Error.{ok}
use chat.Notify.Sets.{contains, equal, union}
use chat.Notify.Members.{contains-collect, contains-union}
use chat.Notify.Counting.{IsOnce-collect, equal-same, equal-left, equal-right}
use chat.Notify.Notif.{
  get_affected_chat_user_ids, ids_of, add_to_chat, Json, load, of_chat_updated, event_of,
}

-- the user has a place among the members of the chat, if there is one
abbrev pub is_member : ℕ → Option Chat → Bool
is_member x none = false
is_member x (some c) = contains x (map as_u64 c.members)

abbrev pub IsUnchanged : (old new : Option Chat) → Type 0
IsUnchanged old new = (x : ℕ) → is_member x old ≡ is_member x new

-- both chats are there, and the same users are members of both
abbrev pub IsKept : (old new : Option Chat) → Type 0
IsKept old new = ((is_some old && is_some new) ≡ true) × IsUnchanged old new

same_bool : (a b : Bool) → (a ≡ true → b ≡ true) → (b ≡ true → a ≡ true) → a ≡ b
same_bool true b h k = sym (h refl)
same_bool false true h k = k refl
same_bool false false h k = refl

equal-IsUnchanged :
    (c d : Chat)
    → equal (ids_of c.members) (ids_of d.members) ≡ true
    → IsUnchanged (some c) (some d)
equal-IsUnchanged c d same x =
    same_bool _ _
      (λ i.
        sym (contains-collect x _)
        ∙ equal-right x _ _ same (contains-collect x (map as_u64 c.members) ∙ i))
      (λ i.
        sym (contains-collect x _)
        ∙ equal-left x _ _ (IsOnce-collect _) same (contains-collect x (map as_u64 d.members) ∙ i))

IsUnchanged-equal :
    (c d : Chat)
    → IsUnchanged (some c) (some d)
    → equal (ids_of c.members) (ids_of d.members) ≡ true
IsUnchanged-equal c d h =
    equal-same (ids_of c.members) (ids_of d.members) (IsOnce-collect _) (IsOnce-collect _)
      (λ x. contains-collect x _ ∙ h x ∙ sym (contains-collect x _))

contains-both :
    (x : ℕ) (c d : Chat)
    → contains x (union (ids_of c.members) (ids_of d.members))
      ≡ (is_member x (some d) || is_member x (some c))
contains-both x c d =
    contains-union x _ _
    ∙ rw (contains-collect x (map as_u64 c.members), contains-collect x (map as_u64 d.members)) refl

-- A change between two chats with the same set of members affects nobody. Any other change (a chat
-- that comes or goes, or members that join or leave) affects exactly the users who are members
-- before it or after it.
pub affected-is_member :
    (old new : Option Chat)
    → (IsKept old new × (get_affected_chat_user_ids old new ≡ []))
      ⊎ ((¬ IsKept old new)
          × ((x : ℕ)
              → contains x (get_affected_chat_user_ids old new)
                ≡ (is_member x new || is_member x old)))
unfolding get_affected_chat_user_ids
affected-is_member none none = inr (λ k. cc (k.0), λ x. unfold contains in refl)
affected-is_member none (some c) =
    inr (λ k. cc (k.0), λ x. contains-collect x (map as_u64 c.members) ∙ ground arith)
affected-is_member (some c) none =
    inr (λ k. cc (k.0), λ x. contains-collect x (map as_u64 c.members))
affected-is_member (some c) (some d) =
    elim (Bool-cases (equal (ids_of c.members) (ids_of d.members))) [
      | inl same ↦ rw same (inl ((refl, equal-IsUnchanged c d same), refl))
      | inr other ↦ rw other (
          inr (
            λ k. let same = IsUnchanged-equal c d k.1 in cc (same, other),
            λ x. contains-both x c d,
          ))
    ]

IsUnchanged-nobody :
    (old new : Chat)
    → IsUnchanged (some old) (some new)
    → get_affected_chat_user_ids (some old) (some new) ≡ []
unfolding get_affected_chat_user_ids
IsUnchanged-nobody c d h = rw (IsUnchanged-equal c d h) refl

-- An UPDATE notification whose old and new chat have the same set of members, whatever their order
-- and however often each is listed, is loaded as `AddToChat` of the new chat, for nobody.
pub load-IsUnchanged :
    (json : Json) (payload : Text) (old new : Chat)
    → json.chat_updated payload
      ≡ ok (record { op = codes "UPDATE"; old = some old; new = some new })
    → IsUnchanged (some old) (some new)
    → load json (codes "chat_updated") payload
      ≡ ok (record { user_ids = []; event = add_to_chat new })
unfolding load of_chat_updated event_of
load-IsUnchanged json payload old new parsed same =
    rw (parsed, IsUnchanged-nobody old new same) refl
