-- ===== src/Server/Handlers/Files.antt =====
-- Files: `file_handler` and `upload_handler` of chat_server/src/handlers/messages.rs. The disk is
-- keyed by what paths resolve to.
pub mod Uploads
pub mod Names
pub mod Paths
pub mod Downloads
use chat.Base.{
  ℕ, as_u64, Text, text_eq, codes, Bool, true, false, not, ◌&&◌, Option, none, some, List, [], ◌∷◌,
  ◌++◌, ◌==◌, if◌then◌else◌, map, select, find,
}
use chat.Core.{User}
use chat.Http.{Response, Body, file, unreadable, all_urls, respond_with}
use chat.Strings.{split, join, to_text}
use chat.Server.Error.{permission_deny, not_found, any_error, io_error, ok, err}
use chat.Server.World.{M, Env, World, Entry, dir, pure, raise, abort, ◌>>=◌, ◌>>◌}
use chat.Server.ChatFile
use chat.Server.ChatFile.{ChatFile}
use chat.Server.Services.Msgs.{exists}
use chat.Server.Handlers.{App}

-- a part of a path that is a component: `Path` drops the empty ones and `.`
abbrev pub is_component : Text → Bool
is_component p = not (text_eq p []) && not (text_eq p (codes "."))

abbrev last_of : List Text → Option Text
last_of [] = none
last_of (p ∷ []) = some p
last_of (p ∷ q ∷ ps) = last_of (q ∷ ps)

abbrev unless_up : Option Text → Option Text
unless_up none = none
unless_up (some p) = if text_eq p (codes "..") then none else some p

-- `path.file_name()`
unfoldable pub file_name : Text → Option Text
file_name path = unless_up (last_of (select is_component (split b'/' path)))

-- what stands at a path
unfoldable pub entry_at : Env → Text → World → Option (Text × Entry)
entry_at env path w = find (λ e. text_eq e.0 (env.resolve path)) w.disk

abbrev body_of : Option (Text × Entry) → Body
body_of none = unreadable
body_of (some (_, dir)) = unreadable
body_of (some (_, Entry.file bytes)) = file bytes

-- the response with both headers, where `unwrap` panics on a bad header value
abbrev pub attachment : Option Text → Option Text → Body → M Response
attachment none disposition body = abort
attachment (some mime) none body = abort
attachment (some mime) (some disposition) body = pure (record {
  status = 200;
  headers = (codes "content-type", mime) ∷ (codes "content-disposition", disposition) ∷ [];
  body = body;
})

-- `format!("attachment; filename=\"{}\"", filename)`
abbrev pub disposition : Text → Text
disposition filename = codes "attachment; filename=\"" ++ (filename ++ codes "\"")

unfoldable pub send_file : Env → Text → Option Text → M Response
send_file env path none w = (err (any_error (codes "invalid path")), w)
send_file env path (some filename) w = elim (env.open_error path) [
  | some e ↦ (err (io_error e), w)
  | none ↦
      attachment (env.header_value (env.mime path)) (env.header_value (disposition filename))
        (body_of (entry_at env path w)) w
]

unfoldable pub file_at : Env → Text → Bool → M Response
file_at env path false = raise (not_found (codes "file doesn't exist"))
file_at env path true = send_file env path (file_name path)

-- the path that `file_handler` reads
unfoldable pub file_path : App → (ws_id : ℕ) → Text → Text
file_path app ws_id path = join (join app.base_dir (to_text ws_id)) path

unfoldable pub file_handler : App → User → (ws_id : ℕ) → Text → M Response
file_handler app user ws_id path =
    if ws_id == as_u64 user.ws_id
    then exists app.env (file_path app ws_id path) >>= file_at app.env (file_path app ws_id path)
    else raise permission_deny

-- A part of the upload: its file name and its bytes, where they can be read, or an error of the
-- multipart stream.
pub data Field : Type 0 where
  part : (file_name bytes : Option Text) → Field
  unparsable : Field

-- the directories above a path
unfoldable pub parents : Text → List Text
parents [] = []
parents (c ∷ s) =
    let above = map (λ p. c ∷ p) (parents s) in if c == b'/' then [] ∷ above else above

-- `create_dir_all` of the parent, then `write`
unfoldable pub write : Env → Text → Text → M (Unit {0})
write env path bytes w = elim (env.write_error path) [
  | some e ↦ (err (io_error e), w)
  | none ↦ (
    ok tt,
    record w {
      disk =
          (env.resolve path, Entry.file bytes)
          ∷ (map (λ p. (env.resolve p, dir)) (parents path) ++ w.disk);
    },
  )
]

abbrev pub unless_there : Env → Text → Text → Bool → M (Unit {0})
unless_there env path bytes true = pure tt
unless_there env path bytes false = write env path bytes

unfoldable pub store : Env → Option Text → Text → M (Unit {0})
store env none bytes = abort
store env (some path) bytes = do there ← exists env path; unless_there env path bytes there

-- a file's URL, and the file stored unless it is there
unfoldable pub put_file : App → ChatFile → Text → Option Text → M (List Text)
put_file app f bytes none = abort
put_file app f bytes (some url) =
    store app.env (ChatFile.path app.base_dir f) bytes >> pure (url ∷ [])

-- one round of the loop: the URLs that it adds
unfoldable pub upload_field : App → (ws_id : ℕ) → Field → M (List Text)
upload_field app ws_id unparsable = raise (any_error (codes "multipart error"))
upload_field app ws_id (part none bytes) = pure []
upload_field app ws_id (part (some filename) none) = pure []
upload_field app ws_id (part (some filename) (some bytes)) =
    let f = ChatFile.new app.env ws_id filename bytes in put_file app f bytes (ChatFile.url f)

unfoldable pub upload_all : App → (ws_id : ℕ) → List Field → List Text → M (List Text)
upload_all app ws_id [] files = pure files
upload_all app ws_id (f ∷ fs) files =
    upload_field app ws_id f >>= λ urls. upload_all app ws_id fs (files ++ urls)

unfoldable pub upload_handler : App → User → List Field → M Response
upload_handler app user fields = upload_all app (as_u64 user.ws_id) fields [] >>= λ files.
    pure (respond_with 200 (all_urls files))
