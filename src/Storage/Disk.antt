-- ===== src/Storage/Disk.antt =====
-- The files below an `os.Root`, and the functions of package os that internal/storage/local calls on
-- it. A cleaned path is the list of its names, empty for `.`. A link cannot be followed below the
-- root: it leads out of it or to nothing.
pub mod Laws
pub mod Trees
pub mod Rename
use ialbum.Base.{
  ◌≡◌, refl, ◌⊎◌, inl, inr, ℕ, Bool, true, false, ◌&&◌, List, [], ◌∷◌, ◌++◌, Option, none, some,
  is_some, if◌then◌else◌,
}
use ialbum.Text.{Text, codes, text_eq}
use ialbum.Time.{Time}

abbrev pub Names : Type 0
Names = List Text

pub data OsError : Type 0 where
  not_exist permission exist not_dir is_a_dir not_empty path_escapes invalid_name : OsError

pub data OsResult {ℓ} (A : Type ℓ) : Type ℓ where
  done : A → OsResult A
  failed : OsError → OsResult A

pub data Node : Type 0 where
  file : List ℕ → Time → Node
  folder : Node
  link : OsError → Node

abbrev pub Disk : Type 0
Disk = List (Names × Node)

unfoldable pub names_eq : Names → Names → Bool
names_eq [] [] = true
names_eq [] (n ∷ ns) = false
names_eq (m ∷ ms) [] = false
names_eq (m ∷ ms) (n ∷ ns) = text_eq m n && names_eq ms ns

-- What is at a path other than the root.
unfoldable pub lookup : Names → Disk → Option Node
lookup p [] = none
lookup p ((q, x) ∷ d) = if names_eq q p then some x else lookup p d

-- What is at a path, the root included.
unfoldable pub look : Names → Disk → Option Node
unfolding lookup
look [] d = some folder
look (n ∷ ns) d = lookup (n ∷ ns) d

unfoldable pub erase : Names → Disk → Disk
erase p [] = []
erase p ((q, x) ∷ d) = let rest = erase p d in if names_eq q p then rest else (q, x) ∷ rest

unfoldable pub insert : Names → Node → Disk → Disk
unfolding erase
insert p x d = (p, x) ∷ erase p d

-- The path behind a directory, for a path below it.
unfoldable pub strip : Names → Names → Option Names
strip [] p = some p
strip (m ∷ ms) [] = none
strip (m ∷ ms) (n ∷ ns) = if text_eq m n then strip ms ns else none

-- The path is a name in the directory.
abbrev is_child : Option Names → Bool
is_child (some (n ∷ [])) = true
is_child rest = false

abbrev pub last_name : Names → Text
last_name [] = []
last_name (n ∷ []) = n
last_name (n ∷ m ∷ ns) = last_name (m ∷ ns)

-- The entries of a directory, by name.
unfoldable pub children : Names → Disk → List (Text × Node)
unfolding strip
children p [] = []
children p ((q, x) ∷ d) =
    let rest = children p d in if is_child (strip p q) then (last_name q, x) ∷ rest else rest

-- filepath.Dir of a cleaned path
unfoldable pub parent : Names → Names
parent [] = []
parent (n ∷ []) = []
parent (n ∷ m ∷ ns) = n ∷ parent (m ∷ ns)

-- Root.Lstat, from a directory that is there on
unfoldable pub lstat_below : Names → Names → Disk → OsResult Node
unfolding look
lstat_below here [] d = done folder
lstat_below here (n ∷ ns) d =
    let rest = lstat_below (here ++ n ∷ []) ns d in
    elim (look (here ++ n ∷ []) d) [
      | none ↦ failed not_exist
      | some x ↦ elim ns [
        | [] ↦ done x
        | m ∷ ms ↦ elim x [ file b t ↦ failed not_dir | folder ↦ rest | link e ↦ failed e ]
      ]
    ]

-- Root.Lstat
abbrev pub lstat : Names → Disk → OsResult Node
lstat p d = lstat_below [] p d

abbrev pub follow : OsResult Node → OsResult Node
follow (failed e) = failed e
follow (done (file b t)) = done (file b t)
follow (done folder) = done folder
follow (done (link e)) = failed e

-- Root.Stat
abbrev pub stat : Names → Disk → OsResult Node
stat p d = follow (lstat p d)

abbrev pub exists : OsResult Node → Bool
exists (done x) = true
exists (failed e) = false

-- The directory in which a name is to be made.
abbrev pub in_folder : OsResult Node → OsResult (Unit {0})
in_folder (failed e) = failed e
in_folder (done (file b t)) = failed not_dir
in_folder (done folder) = done tt
in_folder (done (link e)) = failed e

-- A new entry, in a directory that is there, where nothing is.
unfoldable pub create : Names → Node → Disk → OsResult Disk
unfolding look insert parent lstat_below
create p x d = elim (in_folder (lstat (parent p) d)) [
  | failed e ↦ failed e
  | done u ↦ elim (look p d) [ some y ↦ failed exist | none ↦ done (insert p x d) ]
]

abbrev pub is_nil {ℓ} : {A : Type ℓ} → List A → Bool
is_nil [] = true
is_nil (x ∷ xs) = false

-- Root.Remove below the root: a file, a link, or a directory with nothing in it
unfoldable pub remove : Names → Disk → OsResult Disk
unfolding lstat_below erase children
remove p d = elim (lstat p d) [
  | failed e ↦ failed e
  | done (file b t) ↦ done (erase p d)
  | done (link e) ↦ done (erase p d)
  | done folder ↦ if is_nil (children p d) then done (erase p d) else failed not_empty
]

-- fs.ReadDir, before it is sorted
unfoldable pub read_dir : Names → Disk → OsResult (List (Text × Node))
unfolding lstat_below children
read_dir p d = elim (stat p d) [
  | failed e ↦ failed e
  | done (file b t) ↦ failed not_dir
  | done folder ↦ done (children p d)
  | done (link e) ↦ failed e
]

-- The entries below a directory, moved to another one.
unfoldable pub rebase : Names → Names → Disk → Disk
unfolding strip
rebase from to [] = []
rebase from to ((q, x) ∷ d) = elim (strip from q) [
  | none ↦ (q, x) ∷ rebase from to d
  | some rest ↦ (to ++ rest, x) ∷ rebase from to d
]

abbrev pub is_folder : Node → Bool
is_folder (file b t) = false
is_folder folder = true
is_folder (link e) = false

abbrev pub found_folder : Option Node → Bool
found_folder none = false
found_folder (some x) = is_folder x

-- The last checks of a rename: not into itself, and no directory over a file. A rename of a path to
-- itself does nothing.
unfoldable pub rename_onto : Node → Names → Names → Disk → OsResult Disk
unfolding strip rebase erase lookup
rename_onto x from to d = elim (strip from to) [
  | some [] ↦ done d
  | some (n ∷ ns) ↦ failed invalid_name
  | none ↦
      if is_folder x && is_some (lookup to d)
      then failed not_dir
      else done (rebase from to (erase to d))
]

-- os.Rename, which never replaces a directory
unfoldable pub rename : Names → Names → Disk → OsResult Disk
unfolding look lstat_below parent rename_onto
rename from to d = elim (lstat from d) [
  | failed e ↦ failed e
  | done x ↦ elim (in_folder (lstat (parent to) d)) [
    | failed e ↦ failed e
    | done u ↦ if found_folder (look to d) then failed exist else rename_onto x from to d
  ]
]

pub OsResult-cases {ℓ} :
    {A : Type ℓ} (r : OsResult A) → ((a : A) × (r ≡ done a)) ⊎ ((e : OsError) × (r ≡ failed e))
OsResult-cases (done a) = inl (a, refl)
OsResult-cases (failed e) = inr (e, refl)
