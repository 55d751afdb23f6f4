-- ===== src/Storage/Local/Change.antt =====
-- internal/storage/local/local.go: the calls that change files, below a root whose links lead out of it
-- or to nothing.
use ialbum.Base.{
  ℕ, suc, Bool, true, false, not, ◌&&◌, List, [], ◌∷◌, ◌++◌, Option, none, some, if◌then◌else◌,
}
use ialbum.Text.{Text, codes}
use ialbum.Storage.{Result, ok, err, Error, conflict, unsupported, Object}
use ialbum.Storage.Disk.{
  Names, Disk, file, folder, link, OsError, not_exist, exist, done, failed, lstat, lstat_below,
  stat, create, insert, remove, rename, parent, exists, is_nil,
}
use ialbum.Storage.Local.{
  Call, Source, raw, os_text, map_error, canceled, clean, to_slash, stat_object,
}

-- errors.Is(err, os.ErrNotExist)
abbrev pub is_not_exist : OsError → Bool
is_not_exist not_exist = true
is_not_exist e = false

-- errors.Is(err, os.ErrExist)
abbrev pub is_exist : OsError → Bool
is_exist exist = true
is_exist e = false

-- ensureDir, from a directory that was seen on
unfoldable pub ensure_below : Names → Names → Disk → Disk × Result (Unit {0})
unfolding lstat_below create os_text
ensure_below current [] d = (d, ok tt)
ensure_below current (part ∷ parts) d = elim (lstat (current ++ part ∷ []) d) [
  | done (file b t) ↦ (d, err conflict)
  | done folder ↦ ensure_below (current ++ part ∷ []) parts d
  | done (link e) ↦ (d, err conflict)
  | failed e ↦
      if not (is_not_exist e)
      then (d, err (raw e))
      else elim (create (current ++ part ∷ []) folder d) [
        | done made ↦ ensure_below (current ++ part ∷ []) parts made
        | failed f ↦
            if is_exist f then ensure_below (current ++ part ∷ []) parts d else (d, err (raw f))
      ]
]

abbrev pub ensure_dir : Names → Disk → Disk × Result (Unit {0})
ensure_dir rel d = ensure_below [] rel d

-- ensureParents
abbrev pub ensure_parents : Names → Disk → Disk × Result (Unit {0})
ensure_parents rel d = ensure_dir (parent rel) d

-- The parent is a directory and no link.
unfoldable pub parent_ok : Names → Disk → Bool
unfolding parent lstat_below
parent_ok rel d = elim (parent rel) [
  | [] ↦ true
  | n ∷ ns ↦ elim (lstat (n ∷ ns) d) [
    | failed e ↦ false
    | done (file b t) ↦ false
    | done folder ↦ true
    | done (link e) ↦ false
  ]
]

-- safeRename
unfoldable pub safe_rename : Names → Names → Disk → Disk × Result (Unit {0})
unfolding parent_ok rename os_text
safe_rename from to d =
    if parent_ok from d && parent_ok to d
    then elim (rename from to d) [ failed e ↦ (d, err (raw e)) | done e ↦ (e, ok tt) ]
    else (d, err conflict)

-- copyContext: the bytes written, and the error
unfoldable pub copy_context : Call → ℕ → List (List ℕ) → Option Error → List ℕ × Option Error
copy_context c turn [] ends = ([], if c.cancelled turn then some canceled else ends)
copy_context c turn (part ∷ reads) ends =
    let rest = copy_context c (suc turn) reads ends in
    if c.cancelled turn
    then ([], some canceled)
    else elim (c.write_fault turn) [ some e ↦ ([], some e) | none ↦ (part ++ rest.0, rest.1) ]

-- The name of the temporary file.
unfoldable pub temp_name : Text → Names → Names
temp_name suffix [] = []
temp_name suffix (n ∷ []) = (n ++ codes ".ialbum-" ++ suffix ++ codes ".tmp") ∷ []
temp_name suffix (n ∷ m ∷ ns) = n ∷ temp_name suffix (m ∷ ns)

-- Root.Remove with its error ignored
abbrev pub discard : Names → Disk → Disk
discard p d = elim (remove p d) [ failed e ↦ d | done e ↦ e ]

unfoldable pub publish_renamed_to :
    Call → Names → Names → Disk → Disk × Result (Unit {0}) → Disk × Result Object
unfolding remove stat_object to_slash
publish_renamed_to c tmp rel d (e, err x) = (discard tmp d, err x)
publish_renamed_to c tmp rel d (e, ok u) = (e, stat_object c (to_slash rel) e)

-- Put behind the copy: the file gets its name.
unfoldable pub publish : Call → Names → Names → Disk → Disk × Result Object
unfolding safe_rename publish_renamed_to
publish c tmp rel d = publish_renamed_to c tmp rel d (safe_rename tmp rel d)

-- Put behind the creation of the temporary file
unfoldable pub fill : Call → Source → Names → Names → Disk → Disk × Result Object
unfolding copy_context insert remove publish
fill c source tmp rel d = elim source.open_error [
  | some e ↦ (discard tmp d, err e)
  | none ↦
      let copied = copy_context c 0 source.reads source.read_error in
      let written = insert tmp (file copied.0 c.now) d in
      elim copied.1 [ some e ↦ (discard tmp written, err e) | none ↦ publish c tmp rel written ]
]

-- Put behind ensureParents
unfoldable pub put_made :
    Call → Names → Source → Bool → Disk × Result (Unit {0}) → Disk × Result Object
unfolding lstat_below create temp_name fill os_text
put_made c rel source fail (d, err e) = (d, err e)
put_made c rel source fail (d, ok u) =
    if fail && exists (stat rel d)
    then (d, err conflict)
    else elim (create (temp_name c.suffix rel) (file [] c.now) d) [
      | failed e ↦ (d, err (raw e))
      | done e ↦ fill c source (temp_name c.suffix rel) rel e
    ]

-- Put behind the check of the name
unfoldable pub put_at : Call → Names → Source → Bool → Disk → Disk × Result Object
unfolding ensure_below put_made parent
put_at c rel source fail d = put_made c rel source fail (ensure_parents rel d)

-- Put, where `fail` is a conflict policy of "fail"
unfoldable pub put : Call → Text → Source → Bool → Disk → Disk × Result Object
unfolding clean put_at
put c name source fail d = elim (clean name) [
  | err e ↦ (d, err e)
  | ok rel ↦ if is_nil rel then (d, err conflict) else put_at c rel source fail d
]

-- Mkdir
unfoldable pub mkdir : Text → Disk → Disk × Result (Unit {0})
unfolding clean ensure_below
mkdir name d = elim (clean name) [ err e ↦ (d, err e) | ok rel ↦ ensure_dir rel d ]

unfoldable pub move_made :
    Names → Names → Bool → Disk × Result (Unit {0}) → Disk × Result (Unit {0})
unfolding lstat_below safe_rename
move_made src dst overwrite (d, err e) = (d, err e)
move_made src dst overwrite (d, ok u) =
    if not overwrite && exists (stat dst d) then (d, err conflict) else safe_rename src dst d

-- Move behind the checks of the names
unfoldable pub move_to : Names → Names → Bool → Disk → Disk × Result (Unit {0})
unfolding ensure_below move_made parent
move_to src dst overwrite d = move_made src dst overwrite (ensure_parents dst d)

-- Move
unfoldable pub move : Text → Text → Bool → Disk → Disk × Result (Unit {0})
unfolding clean move_to
move from to overwrite d = elim (clean from) [
  | err e ↦ (d, err e)
  | ok src ↦ elim (clean to) [ err e ↦ (d, err e) | ok dst ↦ move_to src dst overwrite d ]
]

-- Delete
unfoldable pub delete : Text → Disk → Disk × Result (Unit {0})
unfolding clean remove map_error
delete name d = elim (clean name) [
  | err e ↦ (d, err e)
  | ok rel ↦
      if is_nil rel
      then (d, err unsupported)
      else elim (remove rel d) [ failed e ↦ (d, err (map_error e)) | done e ↦ (e, ok tt) ]
]
