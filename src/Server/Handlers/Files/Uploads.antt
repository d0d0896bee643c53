-- ===== src/Server/Handlers/Files/Uploads.antt =====
-- What `upload_handler` (chat_server/src/handlers/messages.rs) leaves on the disk.
use chat.Base.{
  ℕ, ◌≡◌, refl, sym, ap, subst, Text, text_eq, text_eq_iff, Bool, true, false, some, List, [], ◌∷◌,
  any, Option-cases, inl, inr,
}
use chat.Strings.{join}
use chat.Server.Error.{AppError, Result, ok, err, panic, ok-injective}
use chat.Server.World.{Env, World, ◌>>=◌, ◌>>◌, resume, pure}
use chat.Server.ChatFile
use chat.Server.ChatFile.{ChatFile, url, from_str, path}
use chat.Server.ChatFile.RoundTrip.{IsUploaded, stored, from_str-url, hash_to_path-stored}
use chat.Server.Services.Msgs.{exists, check_file, check_path, lift}
use chat.Server.Handlers.{App}
use chat.Server.Handlers.Files.{part, store, write, unless_there, put_file, upload_field}

-- something is where the path leads
abbrev pub IsThere : Env → Text → World → Type 0
IsThere env p w = any (λ e. text_eq e.0 (env.resolve p)) w.disk ≡ true

-- what holds of the state after a call that returns
abbrev pub After : {A : Type 0} → (World → Type 0) → Result AppError A × World → Type 0
After P (ok a, w) = P w
After P (err e, w) = Unit
After P (panic, w) = Unit

write-IsThere :
    (env : Env) (p bytes : Text) (w : World) → After (IsThere env p) (write env p bytes w)
unfolding write
write-IsThere env p bytes w = elim (Option-cases (env.write_error p)) [
  | inl fine ↦ rw (fine, write) (rw ((text_eq_iff (env.resolve p) (env.resolve p)).1 refl) refl)
  | inr (e, bad) ↦ rw (bad, write) tt
]

store-IsThere :
    (env : Env) (p bytes : Text) (w : World) → After (IsThere env p) (store env (some p) bytes w)
unfolding store exists ◌>>=◌
store-IsThere env p bytes w = found _ refl
  where
    found :
        (b : Bool)
        → any (λ e. text_eq e.0 (env.resolve p)) w.disk ≡ b
        → After (IsThere env p) (unless_there env p bytes b w)
    found true t = t
    found false t = write-IsThere env p bytes w

check_file-IsThere :
    (env : Env) (base_dir u : Text) (f : ChatFile) (p : Text) (w : World)
    → from_str u ≡ ok f
    → path base_dir f ≡ some p
    → IsThere env p w
    → check_file env base_dir u w ≡ (ok tt, w)
unfolding check_file lift check_path exists ◌>>=◌
check_file-IsThere env base_dir u f p w read at there = rw (read, at, there) refl

path-stored :
    (base_dir : Text) (f : ChatFile) → IsUploaded f → (p : Text) × (path base_dir f ≡ some p)
unfolding path
path-stored base_dir f u =
    (join base_dir (stored f), rw (hash_to_path-stored f u.long u.ascii) refl)

pub returned :
    (P : World → Type 0) (u : Text) (urls : List Text) (v : World)
    (r : Result AppError (Unit {0}) × World)
    → After P r
    → resume (λ _. pure (u ∷ [])) r ≡ (ok urls, v)
    → (urls ≡ u ∷ []) × P v
returned P u urls v (ok a, w) h e = (
  sym (ok-injective _ _ (ap (λ (x : Result AppError (List Text) × World). x.0) e)),
  subst P (ap (λ (x : Result AppError (List Text) × World). x.1) e) h,
)
returned P u urls v (err x, w) h e =
    absurd (cc (ap (λ (x : Result AppError (List Text) × World). x.0) e))
returned P u urls v (panic, w) h e =
    absurd (cc (ap (λ (x : Result AppError (List Text) × World). x.0) e))

-- If the upload of a field returns, of a file whose workspace id, hash and extension a URL can carry,
-- it returns one URL, and in the state that it leaves a message may refer to that URL: `check_file`
-- passes.
pub upload_field-check_file :
    (app : App) (ws_id : ℕ) (filename bytes : Text) (w v : World) (urls : List Text)
    → IsUploaded (ChatFile.new app.env ws_id filename bytes)
    → upload_field app ws_id (part (some filename) (some bytes)) w ≡ (ok urls, v)
    → (u : Text) × (urls ≡ u ∷ []) × (check_file app.env app.base_dir u v ≡ (ok tt, v))
unfolding upload_field put_file ◌>>=◌ ◌>>◌
upload_field-check_file app ws_id filename bytes w v urls up e =
    let f = ChatFile.new app.env ws_id filename bytes in
    let (u, made, read) = from_str-url f up in
    let (p, at) = path-stored app.base_dir f up in
    let (one, there) =
      returned (IsThere app.env p) u urls v (store app.env (some p) bytes w)
        (store-IsThere app.env p bytes w) (rw (made, at) at e) in
    (u, one, check_file-IsThere app.env app.base_dir u f p v read at there)
