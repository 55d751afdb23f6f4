-- ===== src/Storage/Path/Tests.antt =====
-- The table of internal/storage/storage_test.go.
use ialbum.Base.{◌≡◌, refl, [], ◌∷◌}
use ialbum.Text.{
  codes, text_eq, has_prefix, trim_prefix, contains, replace_all, trim_space, split, join,
}
use ialbum.Storage.{ok, err, other}
use ialbum.Storage.Path.{normalize_relative, clean, accept_cleaned}
use ialbum.Storage.Path.Laws.{IsInside, normalize_relative-IsInside}

accepted :
    (normalize_relative [] ≡ ok [])
    × (normalize_relative (codes ".") ≡ ok [])
    × (normalize_relative (codes "foo\\bar.jpg") ≡ ok (codes "foo/bar.jpg"))
    × (normalize_relative (codes "a/../b.jpg") ≡ ok (codes "b.jpg"))
    × (normalize_relative (codes " x//./y/ ") ≡ ok (codes "x/y"))
unfolding normalize_relative clean accept_cleaned text_eq has_prefix trim_prefix contains
    replace_all trim_space split join
accepted = (refl, refl, refl, refl, refl)

refused :
    (normalize_relative (codes "/etc/passwd") ≡ err (other (codes "absolute path is not allowed")))
    × (normalize_relative (codes "../secret") ≡ err (other (codes "path escapes storage root")))
    × (normalize_relative (codes "a/../../secret")
        ≡ err (other (codes "path escapes storage root")))
    × (normalize_relative (0x61 ∷ 0 ∷ []) ≡ err (other (codes "path contains NUL")))
unfolding normalize_relative clean accept_cleaned text_eq has_prefix trim_prefix contains
    replace_all trim_space split join
refused = (refl, refl, refl, refl)

normalize_relative-IsInside_example : IsInside (codes "b.jpg")
normalize_relative-IsInside_example = normalize_relative-IsInside (codes "a/../b.jpg") (accepted.3)
