-- ===== src/Suite/Files.antt =====
-- The tests of chat_server/src/models/chat.rs.
use chat.Base.{◌≡◌, refl, text_eq, codes, Bool, true, false, ◌&&◌, ◌==◌, some, [], ◌∷◌, All}
use chat.Server.Error.{AppError, invalid_input, Result, ok, err, panic}
use chat.Server.World.{Env}
use chat.Server.ChatFile.{ChatFile, new, hash_to_path, url, path, from_str}
use chat.Suite.{same_name}
use chat.Suite.Fixture.{test_env}

-- the three fields
abbrev is_file : ChatFile → Bool
is_file file =
    file.ws_id == 1
    && (text_eq file.ext (codes "txt")
        && text_eq file.hash (codes "2aae6c35c94fcfb415dbe95f408b9ce91ee846ed"))

unfoldable pub chat_file_new_should_work : Env → Bool
chat_file_new_should_work env =
    let file = new env 1 (codes "test.txt") (codes "hello world") in
    is_file file
    && (same_name (hash_to_path file)
          (some (codes "1/2aa/e6c/35c94fcfb415dbe95f408b9ce91ee846ed.txt"))
        && (same_name (url file)
              (some (codes "/files/1/2aa/e6c/35c94fcfb415dbe95f408b9ce91ee846ed.txt"))
            && same_name (path (codes "/files") file)
                (some (codes "/files/1/2aa/e6c/35c94fcfb415dbe95f408b9ce91ee846ed.txt"))))

abbrev parses : (ChatFile → Bool) → (AppError → Bool) → Result AppError ChatFile → Bool
parses good bad (ok f) = good f
parses good bad (err e) = bad e
parses good bad panic = false

unfoldable pub parse_valid_url_should_work : Env → Bool
parse_valid_url_should_work env =
    parses is_file (λ e. false)
      (from_str (codes "/files/1/2aa/e6c/35c94fcfb415dbe95f408b9ce91ee846ed.txt"))

abbrev is_file_path : AppError → Bool
is_file_path (invalid_input msg) = text_eq msg (codes "file path")
is_file_path _ = false

unfoldable pub parse_invalid_url_should_work : Env → Bool
parse_invalid_url_should_work env =
    parses (λ f. false) is_file_path
      (from_str (codes "/files/1/2aa/e6c/aa/35c94fcfb415dbe95f408b9ce91ee846ed.txt"))

-- every test of the file passes
file_tests :
    All
      (λ (test : Env → Bool). test test_env ≡ true)
      (chat_file_new_should_work ∷ parse_valid_url_should_work ∷ parse_invalid_url_should_work ∷ [])
unfolding chat_file_new_should_work parse_valid_url_should_work parse_invalid_url_should_work
    same_name chat.Server.ChatFile.from_str chat.Server.ChatFile.parse_url chat.Strings.strip_prefix
    chat.Strings.split chat.Strings.parse_u64 chat.Strings.scan_some chat.Strings.scan
    chat.Server.ChatFile.path chat.Server.ChatFile.hash_to_path chat.Strings.split_at
    chat.Strings.emit chat.Strings.join chat.Strings.to_text chat.Server.ChatFile.new
    chat.Server.ChatFile.extension chat.Strings.rsplit_once chat.Server.ChatFile.url
file_tests = (refl, (refl, (refl, tt)))
