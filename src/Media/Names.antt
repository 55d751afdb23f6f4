-- ===== src/Media/Names.antt =====
-- internal/media/catalog.go: paths, names, kinds and versions of media.
use mathlib.Core.List.{reverse}
use ialbum.Base.{ℕ, Bool, ◌||◌, List, [], ◌∷◌, ◌++◌, map, Option, none, some, if◌then◌else◌, ◌==◌}
use ialbum.Text.{
  Text, codes, text_eq, is_empty, has_prefix, trim_prefix, trim, trim_left, trim_space, itoa, join,
}
use ialbum.Storage.{Object}
use ialbum.Storage.Path.{clean, slash}
use ialbum.Media.Types.{Env, Kind, image, video}

-- The last element of a list cut at the separators that `stop` marks, from its reversal.
until : (ℕ → Bool) → Text → Text
until stop [] = []
until stop (c ∷ s) = if stop c then [] else c ∷ until stop s

-- path.Base
unfoldable pub base : Text → Text
unfolding until trim_left
base [] = b'.' ∷ []
base (c ∷ s) =
    let last = reverse (until (λ d. d == slash) (trim_left (λ d. d == slash) (reverse (c ∷ s)))) in
    if is_empty last then slash ∷ [] else last

-- path.Ext, from the reversed name: the text up to the last dot, if no slash stands behind it
ext_from : Text → Text → Text
ext_from [] out = []
ext_from (c ∷ s) out =
    let rest = ext_from s (c ∷ out) in
    if c == slash then [] else if c == b'.' then c ∷ out else rest

unfoldable pub ext : Text → Text
unfolding ext_from
ext name = ext_from (reverse name) []

-- strings.TrimSuffix with the extension
unfoldable pub without_ext : Text → Text
unfolding ext
without_ext name = reverse (trim_prefix (reverse name) (reverse (ext name)))

abbrev pub images : List (Text × Text)
images =
    (codes ".jpg", codes "image/jpeg")
    ∷ (codes ".jpeg", codes "image/jpeg")
    ∷ (codes ".png", codes "image/png")
    ∷ (codes ".webp", codes "image/webp")
    ∷ (codes ".gif", codes "image/gif")
    ∷ []

abbrev pub videos : List (Text × Text)
videos =
    (codes ".mp4", codes "video/mp4")
    ∷ (codes ".m4v", codes "video/x-m4v")
    ∷ (codes ".mov", codes "video/quicktime")
    ∷ (codes ".webm", codes "video/webm")
    ∷ (codes ".mkv", codes "video/x-matroska")
    ∷ (codes ".avi", codes "video/x-msvideo")
    ∷ []

unfoldable pub lookup : Text → List (Text × Text) → Option Text
lookup key [] = none
lookup key ((k, v) ∷ l) = if text_eq k key then some v else lookup key l

module _ (env : Env) where
  abbrev pub to_lower : Text → Text
  to_lower = map env.lower

  unfoldable pub classify : Text → Option (Kind × Text)
  unfolding lookup ext
  classify name =
      let extension = to_lower (ext name) in
      elim (lookup extension images) [
        | some mime ↦ some (image, mime)
        | none ↦ elim (lookup extension videos) [ some mime ↦ some (video, mime) | none ↦ none ]
      ]

  -- The fields, each behind a NUL but the first, as the format of `fingerprint` writes them.
  abbrev pub version_text : Object → Text
  version_text obj =
      obj.id
      ++ 0
        ∷ (itoa obj.size ++ 0 ∷ (itoa obj.modified_at ++ 0 ∷ (obj.etag ++ 0 ∷ obj.native_checksum)))

  unfoldable pub fingerprint : Object → Text
  fingerprint obj = env.digest (version_text obj)

  unfoldable pub normalize_path : Text → Text
  normalize_path value = to_lower (env.nfc (trim_prefix (clean (slash ∷ value)) (slash ∷ [])))

  unfoldable pub normalize_tag : Text → Text
  normalize_tag value = to_lower (env.nfc (trim_space value))

  -- The form in which roots are compared.
  unfoldable pub root_key : Text → Text
  root_key a = trim (λ c. c == slash) (to_lower (clean (slash ∷ a)))

  unfoldable pub paths_overlap : Text → Text → Bool
  unfolding root_key
  paths_overlap a b =
      let x = root_key a in
      let y = root_key b in
      text_eq x y
      || is_empty x
      || is_empty y
      || has_prefix x (y ++ slash ∷ [])
      || has_prefix y (x ++ slash ∷ [])

-- The parts without their outer slashes, the empty ones dropped.
nonempty_parts : List Text → List Text
nonempty_parts [] = []
nonempty_parts (p ∷ ps) =
    let q = trim (λ c. c == slash) p in
    let rest = nonempty_parts ps in if is_empty q then rest else q ∷ rest

-- joinPath; path.Join of no element is empty
unfoldable pub join_path : List Text → Text
unfolding nonempty_parts
join_path parts = elim (nonempty_parts parts) [ [] ↦ [] | p ∷ ps ↦ clean (join (p ∷ ps) slash) ]
