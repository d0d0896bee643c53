-- ===== src/Server/Services/Msgs/Attached.antt =====
-- The files of a message in `MsgService::create` (chat_server/src/services/msg.rs).
use chat.Base.{
  ℕ, ◌≡◌, ◌≢◌, refl, Text, text_eq, Bool, true, false, Option, none, some, List, [], ◌∷◌, any, All,
}
use chat.Core.{Message}
use chat.Server.Models.{CreateMessage}
use chat.Server.Error.{AppError, Result, ok, err, panic}
use chat.Server.World.{Env, World, M, ◌>>=◌, ◌>>◌, resume}
use chat.Server.ChatFile
use chat.Server.ChatFile.{ChatFile, from_str}
use chat.Server.Services.Msgs.{
  create, create_with, check_files, check_file, check_path, unless_missing, exists, lift,
}

-- The URL is one of a file, and there is something where that file is stored.
abbrev pub IsOnDisk : Env → Text → World → Text → Type 0
IsOnDisk env base_dir w url =
    (f : ChatFile) × (p : Text) × (from_str url ≡ ok f)
    × (ChatFile.path base_dir f ≡ some p)
    × (any (λ e. text_eq e.0 (env.resolve p)) w.disk ≡ true)

-- a check that passes only if `P`, and changes nothing
abbrev pub Checks : Type 0 → World → Result AppError (Unit {0}) × World → Type 0
Checks P w (ok _, v) = P × (v ≡ w)
Checks P w (err e, v) = Unit
Checks P w (panic, v) = Unit

module _ (env : Env) (base_dir url : Text) (w : World) where
  check_path-Checks :
      (f : ChatFile) (o : Option Text)
      → from_str url ≡ ok f
      → ChatFile.path base_dir f ≡ o
      → Checks (IsOnDisk env base_dir w url) w (check_path env o w)
  unfolding check_path exists ◌>>=◌
  check_path-Checks f none e h = tt
  check_path-Checks f (some p) e h = seen _ refl
    where
      seen :
          (b : Bool)
          → any (λ e. text_eq e.0 (env.resolve p)) w.disk ≡ b
          → Checks (IsOnDisk env base_dir w url) w (unless_missing b w)
      seen true t = ((f, p, e, h, t), refl)
      seen false t = tt

  check_file-Checks : Checks (IsOnDisk env base_dir w url) w (check_file env base_dir url w)
  unfolding check_file lift ◌>>=◌
  check_file-Checks = read _ refl
    where
      read :
          (r : Result AppError ChatFile)
          → from_str url ≡ r
          → Checks
              (IsOnDisk env base_dir w url)
              w
              (resume (λ f. check_path env (ChatFile.path base_dir f)) (r, w))
      read (ok f) e = check_path-Checks f _ e refl
      read (err x) e = tt
      read panic e = tt

more :
    (P Q : Type 0) (w : World)
    → P
    → (r : Result AppError (Unit {0}) × World) → Checks Q w r
    → Checks (P × Q) w r
more P Q w h (ok _, v) (a, e) = ((h, a), e)
more P Q w h (err x, v) c = tt
more P Q w h (panic, v) c = tt

both :
    (P Q : Type 0) (w : World) (k : M (Unit {0})) (r : Result AppError (Unit {0}) × World)
    → Checks P w r
    → Checks Q w (k w)
    → Checks (P × Q) w (resume (λ _. k) r)
both P Q w k (ok _, v) (h, e) c = rw e (more P Q w h (k w) c)
both P Q w k (err x, v) h c = tt
both P Q w k (panic, v) h c = tt

pub check_files-Checks :
    (env : Env) (base_dir : Text) (w : World) (urls : List Text)
    → Checks (All (IsOnDisk env base_dir w) urls) w (check_files env base_dir urls w)
unfolding check_files ◌>>◌ ◌>>=◌
check_files-Checks env base_dir w [] = (tt, refl)
check_files-Checks env base_dir w (url ∷ urls) =
    both _ _ w (check_files env base_dir urls) _ (check_file-Checks env base_dir url w)
      (check_files-Checks env base_dir w urls)

-- If `create` returns a message, whatever the connection did, the content asked for is not empty,
-- and each of the files asked for has a URL that `from_str` reads and something on the disk where
-- that file is stored.
pub create-IsOnDisk :
    (env : Env) (base_dir : Text) (input : CreateMessage) (chat_id user_id : ℕ) (w : World)
    (m : Message)
    → (create env base_dir input chat_id user_id w).0 ≡ ok m
    → (input.content ≢ []) × All (IsOnDisk env base_dir w) input.files
unfolding create create_with ◌>>◌ ◌>>=◌
create-IsOnDisk env base_dir input chat_id user_id w m e = after input.content e
  where
    passed :
        (k : Unit {0} → M Message) (r : Result AppError (Unit {0}) × World) {P : Type 0}
        → Checks P w r
        → (resume k r).0 ≡ ok m
        → P
    passed k (ok _, v) c e = c.0
    passed k (err x, v) c e = absurd (cc e)
    passed k (panic, v) c e = absurd (cc e)

    after :
        (content : Text)
        → (create_with env base_dir input content chat_id user_id w).0 ≡ ok m
        → (content ≢ []) × All (IsOnDisk env base_dir w) input.files
    after [] e = absurd (cc e)
    after (c ∷ s) e = (λ n. cc n, passed _ _ (check_files-Checks env base_dir w input.files) e)
