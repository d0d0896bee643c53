-- ===== src/Server/ChatFile.antt =====
-- Uploaded files and their URLs: chat_server/src/models/chat.rs. `hash_to_path` panics where
-- `split_at` does, so what calls it has a result that can be `panic`.
pub mod RoundTrip
use chat.Base.{ℕ, Text, codes, Option, none, some, List, [], ◌∷◌, ◌++◌, ◌≡◌, refl}
use chat.Strings.{split, rsplit_once, split_at, strip_prefix, parse_u64, to_text, join}
use chat.Server.Error.{AppError, invalid_input, Result, ok, err, panic}
use chat.Server.World.{Env}

pub record ChatFile : Type 0 where
  pub ws_id : ℕ
  pub ext : Text
  pub hash : Text

-- `rsplit_once('.').unwrap_or((filename, "txt"))`, its second part
unfoldable pub extension : Text → Text
extension filename = elim (rsplit_once b'.' filename) [ none ↦ codes "txt" | some (_, ext) ↦ ext ]

-- `ChatFile::new`
unfoldable pub new : Env → ℕ → (filename bytes : Text) → ChatFile
new env ws_id filename bytes = record {
  ws_id = ws_id;
  ext = extension filename;
  hash = env.sha1_hex bytes;
}

infixl 5 ◌>>=◌
abbrev ◌>>=◌ {ℓ κ} : {A : Type ℓ} {B : Type κ} → Option A → (A → Option B) → Option B
none >>= k = none
some a >>= k = k a

-- `ChatFile::hash_to_path`; `none` is the panic of `split_at`
unfoldable pub hash_to_path : ChatFile → Option Text
hash_to_path f = do
  (first, remain) ← split_at 3 f.hash
  (second, third) ← split_at 3 remain
  some (to_text f.ws_id ++ b'/' ∷ (first ++ b'/' ∷ (second ++ b'/' ∷ (third ++ b'.' ∷ f.ext))))

-- `ChatFile::url`
unfoldable pub url : ChatFile → Option Text
url f = do p ← hash_to_path f; some (codes "/files/" ++ p)

-- `ChatFile::path`
unfoldable pub path : Text → ChatFile → Option Text
path base_dir f = do p ← hash_to_path f; some (join base_dir p)

-- `try_into` an array of four, and of two
abbrev four : List Text → Option (Text × Text × Text × Text)
four (a ∷ b ∷ c ∷ d ∷ []) = some (a, b, c, d)
four _ = none

abbrev two : List Text → Option (Text × Text)
two (a ∷ b ∷ []) = some (a, b)
two _ = none

-- the steps of `from_str`, each of which fails with the same error
unfoldable pub parse_url : Text → Option ChatFile
parse_url s = do
  remain ← strip_prefix (codes "/files/") s
  (ws, part1, part2, filename) ← four (split b'/' remain)
  ws_id ← parse_u64 ws
  (part3, ext) ← two (split b'.' filename)
  some (record { ws_id = ws_id; ext = ext; hash = part1 ++ (part2 ++ part3) })

abbrev pub ok_or : {A : Type 0} → AppError → Option A → Result AppError A
ok_or e none = err e
ok_or e (some a) = ok a

-- `ChatFile::from_str`
unfoldable pub from_str : Text → Result AppError ChatFile
from_str s = ok_or (invalid_input (codes "file path")) (parse_url s)
