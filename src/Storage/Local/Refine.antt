-- ===== src/Storage/Local/Refine.antt =====
-- The local provider as a map from paths to files and links, which forgets the directories.
mod Tests
use ialbum.Base.{
  zero, suc, ◌+◌, ◌-◌, ◌*◌, ◌/◌, ◌%◌, ◌≤◌, ◌<◌, Bool, true, false, ◌||◌, List, [], ◌∷◌, ◌++◌, map,
  append-nil, append_assoc, ◌≢◌, ◌↔◌, ◌⊎◌, Option, none, some, is_some, some_inj, ◌≡◌, ltb, leb,
  ◌==◌, if◌then◌else◌, Option-cases, ==_iff, take, drop, length-append, length-take_le, All-append,
  All-take, All-imp, All-Elem, Elem, here, there, NotIn, Distinct,
}
use ialbum.Text.{Text}
use ialbum.Storage.{Error, Result, ok, err, conflict, unsupported}
use ialbum.Storage.Disk.{
  Names, Disk, Node, file, folder, link, done, failed, look, lstat, rename, names_eq,
}
use ialbum.Storage.Disk.Laws.{IsTree, names_eq_iff}
use ialbum.Storage.Disk.Rename.{rename_lem, moved}
use ialbum.Storage.Local.{Call, Source, raw, map_error, clean, to_slash}
use ialbum.Storage.Local.Change.{ensure_below, safe_rename, put_at, put, mkdir, move, delete}
use ialbum.Storage.Local.Files.{Adds}
use ialbum.Storage.Local.Put.{concat, Stored}

abbrev pub View : Type 0
View = Names → Option Node

abbrev leaf : Option Node → Option Node
leaf none = none
leaf (some (file b t)) = some (file b t)
leaf (some folder) = none
leaf (some (link e)) = some (link e)

-- The files and links of the tree.
abbrev pub view : Disk → View
view d q = leaf (look q d)

-- The calls of a provider that change something.
pub data Op : Type 0 where
  put_op : Call → Text → Source → Bool → Op
  mkdir_op : Text → Op
  move_op : Text → Text → Bool → Op
  delete_op : Text → Op

abbrev succeeded {ℓ} : {A : Type ℓ} → Result A → Bool
succeeded (ok a) = true
succeeded (err e) = false

abbrev outcome {ℓ} : {A : Type ℓ} → Disk × Result A → Disk × Bool
outcome (d, r) = (d, succeeded r)

-- A call, and whether it succeeds.
unfoldable pub step : Op → Disk → Disk × Bool
unfolding put mkdir move delete
step (put_op c name source fail) d = outcome (put c name source fail d)
step (mkdir_op name) d = outcome (mkdir name d)
step (move_op from to overwrite) d = outcome (move from to overwrite d)
step (delete_op name) d = outcome (delete name d)

unfoldable pub run : List Op → Disk → Disk × List Bool
unfolding step
run [] d = (d, [])
run (o ∷ ops) d = let (e, b) = step o d in let (f, bs) = run ops e in (f, b ∷ bs)

-- The path that a name stands for.
abbrev target : Text → Names
target name = elim (clean name) [ err e ↦ [] | ok rel ↦ rel ]

-- The same call on a map, where it succeeds.
unfoldable pub effect : Op → View → View
unfolding clean
effect (put_op c name source fail) f q =
    if names_eq (target name) q then some (file (concat source.reads) c.now) else f q
effect (mkdir_op name) f q = f q
effect (move_op from to overwrite) f q = moved (target from) (target to) none f q
effect (delete_op name) f q = if names_eq (target name) q then none else f q

abbrev spec_step : Op → Bool → View → View
spec_step o true f = effect o f
spec_step o false f = f

-- The calls on a map, by whether each has succeeded.
unfoldable pub replay : List Op → List Bool → View → View
unfolding effect
replay [] bs f = f
replay (o ∷ ops) [] f = f
replay (o ∷ ops) (b ∷ bs) f = replay ops bs (spec_step o b f)

-- The cleaned path is clean: no blank stands at an end of it.
abbrev pub IsStable : Text → Type 0
IsStable name = (rel : Names) → clean name ≡ ok rel → clean (to_slash rel) ≡ ok rel

abbrev pub IsStableOp : Op → Type 0
IsStableOp (put_op c name source fail) = IsStable name
IsStableOp (mkdir_op name) = Unit
IsStableOp (move_op from to overwrite) = Unit
IsStableOp (delete_op name) = Unit

-- What a call keeps: the tree stays a tree, and the files are those of the map.
abbrev Refines : Op → Disk → Disk × Bool → Type 0
Refines o d r = IsTree r.0 × ((q : Names) → view r.0 q ≡ spec_step o r.1 (view d) q)
