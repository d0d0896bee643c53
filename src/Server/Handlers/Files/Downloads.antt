-- ===== src/Server/Handlers/Files/Downloads.antt =====
-- An upload and then a download: `upload_handler` and `file_handler` of
-- chat_server/src/handlers/messages.rs.
use chat.Base.{
  ℕ, ◌<◌, ◌≡◌, ◌⊎◌, refl, sym, subst, ap, inl, inr, as_u64, Text, text_eq, text_eq_iff, codes, Bool,
  true, false, none, some, List, [], ◌∷◌, ◌++◌, any, find, length, arith, Option-cases, ==_iff,
}
use chat.Core.{User}
use chat.Http.{Response, file}
use chat.Strings.{join, to_text}
use chat.Server.Error.{ok, ok-injective, Result, AppError}
use chat.Server.World.{Env, World, Entry, ◌>>=◌, ◌>>◌}
use chat.Server.ChatFile
use chat.Server.ChatFile.{ChatFile, path, url, hash_to_path}
use chat.Server.ChatFile.RoundTrip.{IsUploaded, stored, hash_to_path-stored}
use chat.Server.Services.Msgs.{exists}
use chat.Server.Handlers.{App}
use chat.Server.Handlers.Files.{
  part, store, write, put_file, upload_field, file_handler, file_at, send_file, entry_at,
  disposition,
}
use chat.Server.Handlers.Files.Uploads.{After, returned}
use chat.Server.Handlers.Files.Paths.{
  last_part, below, path-join, file_name-stored, file_path-stored,
}

-- a file of these bytes is where the path leads
abbrev pub Holds : Env → Text → Text → World → Type 0
Holds env p bytes w = entry_at env p w ≡ some (env.resolve p, Entry.file bytes)

any-find :
    (env : Env) (p : Text) (disk : List (Text × Entry)) {e : Text × Entry}
    → find (λ e. text_eq e.0 (env.resolve p)) disk ≡ some e
    → any (λ e. text_eq e.0 (env.resolve p)) disk ≡ true
any-find env p [] {e} h = cc h
any-find env p (x ∷ disk) {e} h = ground (arith, any-find env p disk {e = e})

Holds-any :
    (env : Env) (p bytes : Text) (w : World)
    → Holds env p bytes w
    → any (λ e. text_eq e.0 (env.resolve p)) w.disk ≡ true
unfolding entry_at
Holds-any env p bytes w h = any-find env p w.disk h

write-Holds :
    (env : Env) (p bytes : Text) (w : World) → After (Holds env p bytes) (write env p bytes w)
unfolding write entry_at
write-Holds env p bytes w = elim (Option-cases (env.write_error p)) [
  | inl fine ↦ rw (fine, write) (rw ((text_eq_iff (env.resolve p) (env.resolve p)).1 refl) refl)
  | inr (e, bad) ↦ rw (bad, write) tt
]

-- Where nothing was, or the same bytes, the bytes are stored.
store-Holds :
    (env : Env) (p bytes : Text) (w : World)
    → ((exists env p w ≡ (ok false, w)) ⊎ Holds env p bytes w)
    → After (Holds env p bytes) (store env (some p) bytes w)
unfolding store exists ◌>>=◌
store-Holds env p bytes w (inl fresh) =
    rw (ok-injective _ false (ap (λ (x : Result AppError Bool × World). x.0) fresh))
      (write-Holds env p bytes w)
store-Holds env p bytes w (inr same) = rw (Holds-any env p bytes w same) same

-- what `file_handler` answers
abbrev pub download : (mime attached bytes : Text) → Response
download mime attached bytes = record {
  status = 200;
  headers = (codes "content-type", mime) ∷ (codes "content-disposition", attached) ∷ [];
  body = file bytes;
}

send_file-Holds :
    (env : Env) (p name bytes mime attached : Text) (v : World)
    → Holds env p bytes v
    → env.open_error p ≡ none
    → env.header_value (env.mime p) ≡ some mime
    → env.header_value (disposition name) ≡ some attached
    → send_file env p (some name) v ≡ (ok (download mime attached bytes), v)
unfolding send_file
send_file-Holds env p name bytes mime attached v held opens typed named =
    rw (opens, send_file) (rw (typed, named, held) refl)

module _ (app : App) (f : ChatFile) (reader : User) (bytes mime attached : Text) (v : World) where
  file_handler-stored :
      IsUploaded f
      → 6 < length f.hash
      → as_u64 reader.ws_id ≡ f.ws_id
      → Holds app.env (join app.base_dir (stored f)) bytes v
      → app.env.open_error (join app.base_dir (stored f)) ≡ none
      → app.env.header_value (app.env.mime (join app.base_dir (stored f))) ≡ some mime
      → app.env.header_value (disposition (last_part f)) ≡ some attached
      → file_handler app reader f.ws_id (below f) v ≡ (ok (download mime attached bytes), v)
  unfolding file_handler file_at exists ◌>>=◌
  file_handler-stored u long home held opens typed named =
      rw
        (
          (==_iff f.ws_id (as_u64 reader.ws_id)).1 (sym home),
          file_path-stored f u long app,
          Holds-any app.env (join app.base_dir (stored f)) bytes v held,
          file_name-stored f u long app.base_dir,
        )
        (send_file-Holds app.env (join app.base_dir (stored f)) (last_part f) bytes mime attached v
          held opens typed named)

-- If the upload of a field returns, it returns one URL `/files/<workspace>/<rest>`, and with that rest
-- `file_handler` answers a user of the workspace with 200, both headers and the uploaded bytes, and
-- changes nothing. This is for a file whose workspace id, hash and extension a URL can carry, with
-- more than six characters of hash, whose path `p` had nothing or the same bytes before, can be opened
-- after, and whose MIME type and name are header values.
pub file_handler-upload_field :
    (app : App) (ws_id : ℕ) (reader : User) (filename bytes p mime attached : Text) (w v : World)
    (urls : List Text)
    → IsUploaded (ChatFile.new app.env ws_id filename bytes)
    → 6 < length (ChatFile.new app.env ws_id filename bytes).hash
    → as_u64 reader.ws_id ≡ ws_id
    → path app.base_dir (ChatFile.new app.env ws_id filename bytes) ≡ some p
    → ((exists app.env p w ≡ (ok false, w)) ⊎ Holds app.env p bytes w)
    → upload_field app ws_id (part (some filename) (some bytes)) w ≡ (ok urls, v)
    → app.env.open_error p ≡ none
    → app.env.header_value (app.env.mime p) ≡ some mime
    → app.env.header_value (disposition (last_part (ChatFile.new app.env ws_id filename bytes)))
      ≡ some attached
    → (rest : Text) × (urls ≡ (codes "/files/" ++ (to_text ws_id ++ b'/' ∷ rest)) ∷ [])
      × (file_handler app reader ws_id rest v ≡ (ok (download mime attached bytes), v))
unfolding upload_field put_file url ◌>>=◌ ◌>>◌ ChatFile.new
file_handler-upload_field app ws_id reader filename bytes p mime attached w v urls u long home at
      before e opens typed named =
    let f = ChatFile.new app.env ws_id filename bytes in
    let cut = hash_to_path-stored f u.long u.ascii in
    let there : p ≡ join app.base_dir (stored f) = path-join app.base_dir f p cut at in
    let (one, held) =
      returned (Holds app.env p bytes) (codes "/files/" ++ stored f) urls v
        (store app.env (some p) bytes w) (store-Holds app.env p bytes w before)
        (rw (cut, at) at e) in
    (
      below f,
      one,
      file_handler-stored app f reader bytes mime attached v u long home
          (subst (λ q. Holds app.env q bytes v) there held) (rw there at opens) (rw there at typed)
          named,
    )
