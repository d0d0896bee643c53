-- ===== src/Suite.antt =====
-- The tests of the repository as functions into Bool, run on the model over the test database.
pub mod Fixture
pub mod Chats
pub mod Users
pub mod Workspaces
pub mod Messages
pub mod Accounts
pub mod Files
pub mod Admission
pub mod Integration
use chat.Base.{Text, text_eq, Bool, true, false, Option, none, some, List, [], ◌∷◌, ◌&&◌}
use chat.Core.{ChatType, single, group, private_channel, public_channel}
use chat.Server.Error.{AppError, Result, ok, err, panic}
use chat.Server.World.{World, M}

-- the test's future returns, and what it asserts holds
unfoldable pub passes : M Bool → World → Bool
passes test w = elim (test w).0 [ ok b ↦ b | err e ↦ false | panic ↦ false ]

-- `match … { Err(e) => …, _ => panic!() }`
unfoldable pub refuses : {A : Type 0} → (AppError → Bool) → M A → M Bool
refuses expected m w = elim (m w).0 [
  | ok a ↦ (panic, (m w).1)
  | err e ↦ (ok (expected e), (m w).1)
  | panic ↦ (panic, (m w).1)
]

-- `.unwrap()` and `.expect(…)` on an Option
unfoldable pub unwrap : {A : Type 0} → Option A → M A
unwrap none w = (panic, w)
unwrap (some a) w = (ok a, w)

-- `==` on chat types
unfoldable pub same_type : ChatType → ChatType → Bool
same_type single single = true
same_type group group = true
same_type private_channel private_channel = true
same_type public_channel public_channel = true
same_type _ _ = false

-- `==` on an Option<String>
unfoldable pub same_name : Option Text → Option Text → Bool
same_name none none = true
same_name (some a) (some b) = text_eq a b
same_name _ _ = false
