-- ===== src/Server/Handlers/Files/Paths.antt =====
-- The path of an uploaded file: `ChatFile::path`, and what `file_handler` makes of its URL.
use chat.Base.{
  ◌<◌, ◌≡◌, ◌≢◌, refl, Text, false, some, [], ◌∷◌, ◌++◌, length, take, drop, arith, append_assoc,
  All-append, All-drop, le-length-drop,
}
use chat.Strings.{join, to_text, starts_with}
use chat.Strings.Decimal.{to_text-ne-nil}
use chat.Strings.Joining.{join-join, join-append}
use chat.Strings.Splitting.{Lacks}
use chat.Server.ChatFile.{ChatFile, path, hash_to_path}
use chat.Server.ChatFile.RoundTrip.{IsUploaded, stored, to_text-Lacks_slash}
use chat.Server.Handlers.{App}
use chat.Server.Handlers.Files.{file_path, file_name}
use chat.Server.Handlers.Files.Names.{file_name_last, dotted_lem}

-- the last part of a file's path, and what follows the workspace id in it
abbrev pub last_part : ChatFile → Text
last_part f = drop 3 (drop 3 f.hash) ++ b'.' ∷ f.ext

abbrev pub below : ChatFile → Text
below f = take 3 f.hash ++ b'/' ∷ (take 3 (drop 3 f.hash) ++ b'/' ∷ last_part f)

starts_with-take :
    (h r : Text) → 0 < length h → Lacks b'/' h → starts_with b'/' (take 3 h ++ r) ≡ false
starts_with-take [] r long k = absurd (omega arith)
starts_with-take (c ∷ h) r long k = ground arith

append-ne-nil : (s r : Text) → s ≢ [] → s ++ r ≢ []
append-ne-nil [] r h = absurd (h refl)
append-ne-nil (c ∷ s) r h = λ e. cc e

module _ (f : ChatFile) (u : IsUploaded f) (long : 6 < length f.hash) where
  back_long : 0 < length (drop 3 (drop 3 f.hash))
  back_long = le-length-drop 1 3 (drop 3 f.hash) (le-length-drop 4 3 f.hash (omega arith))

  last_part-Lacks : Lacks b'/' (last_part f)
  last_part-Lacks =
      All-append _ (drop 3 (drop 3 f.hash)) (b'.' ∷ f.ext)
        (All-drop _ 3 _ (All-drop _ 3 f.hash u.hash_slash)) (omega arith, u.ext_slash)

  -- what stands before the last part
  abbrev front : Text
  front = to_text f.ws_id ++ b'/' ∷ (take 3 f.hash ++ b'/' ∷ take 3 (drop 3 f.hash))

  front_lem : stored f ≡ front ++ b'/' ∷ last_part f
  front_lem =
      rw
        (
          append_assoc (to_text f.ws_id) (b'/' ∷ (take 3 f.hash ++ b'/' ∷ take 3 (drop 3 f.hash)))
              (b'/' ∷ last_part f),
          append_assoc (take 3 f.hash) (b'/' ∷ take 3 (drop 3 f.hash)) (b'/' ∷ last_part f),
        )
        refl

  pub file_name-stored : (base : Text) → file_name (join base (stored f)) ≡ some (last_part f)
  file_name-stored base =
      let (component, below_it) =
        dotted_lem (drop 3 (drop 3 f.hash)) f.ext back_long
          (All-drop _ 3 _ (All-drop _ 3 f.hash u.hash_dot)) in
      rw
        (
          front_lem,
          join-append base front (b'/' ∷ last_part f)
              (append-ne-nil (to_text f.ws_id) _ (to_text-ne-nil f.ws_id)),
        )
        (file_name_last (join base front) (last_part f) last_part-Lacks component below_it)

  pub file_path-stored :
      (app : App) → file_path app f.ws_id (below f) ≡ join app.base_dir (stored f)
  unfolding file_path
  file_path-stored app =
      join-join app.base_dir (to_text f.ws_id) (below f) (to_text-ne-nil f.ws_id)
        (to_text-Lacks_slash f.ws_id) (starts_with-take f.hash _ (omega arith) u.hash_slash)

pub path-join :
    (base : Text) (f : ChatFile) (p : Text)
    → hash_to_path f ≡ some (stored f)
    → path base f ≡ some p
    → p ≡ join base (stored f)
unfolding path
path-join base f p cut at = cc (rw cut at at)
