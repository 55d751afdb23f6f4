-- ===== src/Storage/Path.antt =====
-- internal/storage/storage.go, `NormalizeRelative`, with Go's `path.Clean` and `path.Join`.
pub mod Laws
mod Tests
use mathlib.Core.List.{reverse}
use ialbum.Base.{ℕ, zero, suc, Bool, true, false, ◌||◌, List, [], ◌∷◌, ◌++◌, if◌then◌else◌, ◌==◌}
use ialbum.Text.{
  Text, codes, text_eq, is_empty, has_prefix, trim_prefix, contains, replace_all, trim_space, split,
  join,
}
use ialbum.Storage.{Result, ok, err, other}

abbrev pub slash : ℕ
slash = b'/'

abbrev pub dot : Text
dot = b'.' ∷ []

abbrev pub dot_dot : Text
dot_dot = b'.' ∷ b'.' ∷ []

-- One element of a path in `path.Clean`: how many `..` lead the result, and the names behind them,
-- the last one first. A rooted path has no `..` in front.
pub clean_step : Bool → ℕ → List Text → Text → ℕ × List Text
clean_step rooted ups names p =
    if is_empty p || text_eq p dot
    then (ups, names)
    else if text_eq p dot_dot
    then elim names [ [] ↦ (if rooted then ups else suc ups, []) | n ∷ ns ↦ (ups, ns) ]
    else (ups, p ∷ names)

unfoldable pub clean_parts : Bool → ℕ → List Text → List Text → ℕ × List Text
unfolding clean_step
clean_parts rooted ups names [] = (ups, names)
clean_parts rooted ups names (p ∷ ps) =
    let (u, n) = clean_step rooted ups names p in clean_parts rooted u n ps

abbrev pub replicate {ℓ} : {A : Type ℓ} → ℕ → A → List A
replicate zero a = []
replicate (suc n) a = a ∷ replicate n a

-- The elements of `path.Clean(s)`.
unfoldable pub elements : Bool → Text → List Text
unfolding clean_parts
elements rooted s =
    let (ups, names) = clean_parts rooted 0 [] (split s slash) in
    replicate ups dot_dot ++ reverse names

unfoldable pub or_dot : Text → Text
or_dot [] = dot
or_dot (c ∷ s) = c ∷ s

-- path.Clean
unfoldable pub clean : Text → Text
unfolding elements or_dot
clean s =
    if has_prefix s (slash ∷ [])
    then slash ∷ join (elements true s) slash
    else or_dot (join (elements false s) slash)

abbrev pub backslash : ℕ
backslash = 0x5c

-- The checks on the cleaned path.
unfoldable pub accept_cleaned : Text → Result Text
accept_cleaned cleaned =
    if text_eq cleaned dot_dot || has_prefix cleaned (codes "../")
    then err (other (codes "path escapes storage root"))
    else if text_eq cleaned dot
    then ok []
    else ok (trim_prefix cleaned (codes "./"))

-- The checks behind the normalisation of separators.
unfoldable pub normalize_value : Text → Result Text
normalize_value value =
    if is_empty value || text_eq value dot
    then ok []
    else if has_prefix value (slash ∷ [])
    then err (other (codes "absolute path is not allowed"))
    else accept_cleaned (clean value)

unfoldable pub normalize_relative : Text → Result Text
unfolding normalize_value
normalize_relative value =
    if contains value 0
    then err (other (codes "path contains NUL"))
    else normalize_value (replace_all (trim_space value) backslash slash)
