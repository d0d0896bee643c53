-- ===== src/Server/ChatFile/RoundTrip.antt =====
-- What `from_str` reads back from `url`.
use chat.Base.{
  ℕ, ◌≤◌, ◌≡◌, ◌≢◌, Text, codes, some, ◌∷◌, ◌++◌, length, take, drop, arith, All-append, All-take,
  All-drop, All-weaken, take-append-drop, le-length-drop,
}
use chat.Strings.{to_text, u64_max}
use chat.Strings.Decimal.{IsDigit, to_text-All-IsDigit, parse_u64-to_text}
use chat.Strings.Splitting.{
  Lacks, IsAscii, split-part, split-append, split_at_ascii, strip_prefix-append,
}
use chat.Server.Error.{ok}
use chat.Server.ChatFile.{ChatFile, hash_to_path, url, from_str, parse_url}

-- a hash as SHA-1 in hexadecimal spells it, and an extension that a URL can carry
pub record IsUploaded (f : ChatFile) : Type 0 where
  pub fits : f.ws_id ≤ u64_max
  pub long : 6 ≤ length f.hash
  pub ascii : IsAscii f.hash
  pub hash_slash : Lacks b'/' f.hash
  pub hash_dot : Lacks b'.' f.hash
  pub ext_slash : Lacks b'/' f.ext
  pub ext_dot : Lacks b'.' f.ext

-- the path of a file whose hash is cut as `hash_to_path` cuts it
abbrev pub stored : ChatFile → Text
stored f =
    to_text f.ws_id
    ++ b'/'
      ∷ (take 3 f.hash
          ++ b'/' ∷ (take 3 (drop 3 f.hash) ++ b'/' ∷ (drop 3 (drop 3 f.hash) ++ b'.' ∷ f.ext)))

-- With six ASCII characters or more `hash_to_path` does not panic.
pub hash_to_path-stored :
    (f : ChatFile) → 6 ≤ length f.hash → IsAscii f.hash → hash_to_path f ≡ some (stored f)
unfolding hash_to_path
hash_to_path-stored f long ascii = rw (
  split_at_ascii 3 f.hash (omega arith) ascii,
  split_at_ascii 3 (drop 3 f.hash) (le-length-drop 3 3 f.hash (omega arith))
      (All-drop _ 3 f.hash ascii),
)

pub to_text-Lacks_slash : (n : ℕ) → Lacks b'/' (to_text n)
to_text-Lacks_slash n =
    All-weaken IsDigit (λ c. c ≢ b'/') (λ c h. omega arith) (to_text n) (to_text-All-IsDigit n)

hash_parts : (h : Text) → take 3 h ++ (take 3 (drop 3 h) ++ drop 3 (drop 3 h)) ≡ h
hash_parts h = rw (take-append-drop 3 (drop 3 h)) (take-append-drop 3 h)

parse_url-stored : (f : ChatFile) → IsUploaded f → parse_url (codes "/files/" ++ stored f) ≡ some f
unfolding parse_url
parse_url-stored f u = rw (
  strip_prefix-append (codes "/files/") (stored f),
  split-append b'/' (to_text f.ws_id) _ (to_text-Lacks_slash f.ws_id),
  split-append b'/' (take 3 f.hash) _ (All-take _ 3 f.hash u.hash_slash),
  split-append b'/' (take 3 (drop 3 f.hash)) _ (All-take _ 3 _ (All-drop _ 3 f.hash u.hash_slash)),
  split-part b'/' (drop 3 (drop 3 f.hash) ++ b'.' ∷ f.ext) (
      All-append _ (drop 3 (drop 3 f.hash)) (b'.' ∷ f.ext)
        (All-drop _ 3 _ (All-drop _ 3 f.hash u.hash_slash)) (omega arith, u.ext_slash)),
  parse_u64-to_text f.ws_id u.fits,
  split-append b'.' (drop 3 (drop 3 f.hash)) _ (All-drop _ 3 _ (All-drop _ 3 f.hash u.hash_dot)),
  split-part b'.' f.ext u.ext_dot,
  hash_parts f.hash,
)

-- A file whose workspace id is a u64, whose hash has at least six characters, all of them ASCII,
-- and whose hash and extension have neither a slash nor a dot, has a URL, and `from_str` reads the
-- same file back from it.
pub from_str-url :
    (f : ChatFile) → IsUploaded f → (u : Text) × (url f ≡ some u) × (from_str u ≡ ok f)
unfolding url from_str
from_str-url f u = (
  codes "/files/" ++ stored f,
  rw (hash_to_path-stored f u.long u.ascii),
  rw (parse_url-stored f u),
)
