-- ===== src/Server/Services/Chats/Kinds.antt =====
-- The types of chats: the `match` of `ChatService::create` (chat_server/src/services/chat.rs).
use chat.Base.{
  ℕ, ◌≡◌, ◌≢◌, refl, Bool, true, false, Option, none, some, arith, ==_iff, ◌==◌, Bool-cases, inl,
  inr, Text,
}
use chat.Core.{ChatType, single, group, private_channel, public_channel}
use chat.Server.Services.Chats.{chat_type}

-- the type that a chat is to have: without a name it is of two members or a group, with a name it is
-- public or private
abbrev pub IsKind : (name : Option Text) (count : ℕ) (public : Bool) → ChatType → Type 0
IsKind name count public single = (name ≡ none) × (count ≡ 2)
IsKind name count public group = (name ≡ none) × (count ≢ 2)
IsKind name count public private_channel = (name ≢ none) × (public ≡ false)
IsKind name count public public_channel = (name ≢ none) × (public ≡ true)

pub chat_type-IsKind :
    (name : Option Text) (count : ℕ) (public : Bool)
    → IsKind name count public (chat_type name count public)
unfolding chat_type
chat_type-IsKind none count public = elim (Bool-cases (count == 2)) [
  | inl two ↦ rw two (refl, (==_iff count 2).0 two)
  | inr other ↦ rw other (refl, λ two. ground arith)
]
chat_type-IsKind (some n) count true = (λ e. cc e, refl)
chat_type-IsKind (some n) count false = (λ e. cc e, refl)
