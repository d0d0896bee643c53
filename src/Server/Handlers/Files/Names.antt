-- ===== src/Server/Handlers/Files/Names.antt =====
-- The file name of a path (`path.file_name()` in chat_server/src/handlers/messages.rs).
use chat.Base.{
  ◌<◌, length, ◌≡◌, refl, Text, text_eq, codes, true, false, some, List, [], ◌∷◌, ◌++◌, ◌==◌,
  select, arith, Bool-cases, inl, inr,
}
use chat.Strings.{split}
use chat.Strings.Splitting.{Lacks, split-part}
use chat.Server.Handlers.Files.{file_name, is_component, last_of}

last_of-cons :
    (p : Text) (ps : List Text) {n : Text} → last_of ps ≡ some n → last_of (p ∷ ps) ≡ some n
last_of-cons p [] h = absurd (cc h)
last_of-cons p (q ∷ ps) h = h

-- The last part of a path, if it is a component, is the last component.
last_of-select :
    (ps : List Text) (name : Text)
    → is_component name ≡ true
    → last_of (select is_component (ps ++ name ∷ [])) ≡ some name
last_of-select [] name h = rw h refl
last_of-select (p ∷ ps) name h = elim (Bool-cases (is_component p)) [
  | inl there ↦
      rw there (last_of-cons p (select is_component (ps ++ name ∷ [])) (last_of-select ps name h))
  | inr dropped ↦ rw dropped (last_of-select ps name h)
]

split_last :
    (q name : Text)
    → Lacks b'/' name
    → (p : Text) × (ps : List Text) × (split b'/' (q ++ b'/' ∷ name) ≡ p ∷ (ps ++ name ∷ []))
unfolding split
split_last [] name h = ([], [], rw (split-part b'/' name h) refl)
split_last (c ∷ q) name h =
    let (p, ps, e) = split_last q name h in
    elim (Bool-cases (c == b'/')) [
      | inl cut ↦ ([], p ∷ ps, rw (cut, e) refl)
      | inr kept ↦ (c ∷ p, ps, rw (kept, e) refl)
    ]

-- What follows the last slash of a path is its file name, unless it is empty, `.` or `..`.
pub file_name_last :
    (q name : Text)
    → Lacks b'/' name
    → is_component name ≡ true
    → text_eq name (codes "..") ≡ false
    → file_name (q ++ b'/' ∷ name) ≡ some name
unfolding file_name
file_name_last q name h k up =
    let (p, ps, e) = split_last q name h in rw (e, last_of-select (p ∷ ps) name k, up) refl

-- A name with a dot behind other characters than dots is such a component.
pub dotted_lem :
    (t ext : Text)
    → 0 < length t
    → Lacks b'.' t
    → (is_component (t ++ b'.' ∷ ext) ≡ true) × (text_eq (t ++ b'.' ∷ ext) (codes "..") ≡ false)
dotted_lem [] ext h k = absurd (omega arith)
dotted_lem (c ∷ t) ext h k = (ground arith, ground arith)
