-- ===== src/Storage/Local/Pages/Named.antt =====
-- internal/storage/local/local.go, `List`: what the pages of a directory name, told without the code.
use mathlib.Core.List.{Perm}
use mathlib.Core.List.Perm
use ialbum.Base.{
  ℕ, ◌<◌, ◌≤◌, ◌≢◌, ◌≡◌, refl, ◌⊎◌, inl, inr, Bool, true, false, List, [], ◌∷◌, ◌++◌, some, arith,
  All, All-imp, Bool-cases, length, ◌==◌, ==_iff,
}
use ialbum.Text.{Text, join}
use ialbum.Sql.{insert_sorted, order_by}
use ialbum.Sql.Order.{Sorted, order_by-Sorted, All-order_by}
use ialbum.Storage.{ok, Object}
use ialbum.Storage.Path.{or_dot}
use ialbum.Storage.Disk.{Names, Disk, Node, OsError, file, folder, link, done, read_dir}
use ialbum.Storage.Local.{Call, clean, to_slash, object_of}
use ialbum.Storage.Local.Listing.{max_int, text_le, by_name, objects_of, list}
use ialbum.Storage.Local.Pages.{all_pages, list-objects}

-- The order of two names: at the first place where they differ, or the one goes on.
unfoldable pub Before : Text → Text → Type 0
Before [] t = Unit
Before (c ∷ s) [] = ⊥
Before (c ∷ s) (d ∷ t) = (c < d) ⊎ ((c ≡ d) × Before s t)

-- Each entry stands before all that follow.
unfoldable pub InOrder : List (Text × Node) → Type 0
InOrder [] = Unit
InOrder (x ∷ xs) = All (λ y. Before x.0 y.0) xs × InOrder xs

-- The object has the path of the entry, and is a file or a directory as said.
pub record IsNamed (dir : Names) (name : Text) (is_dir : Bool) (o : Object) : Type 0 where
  pub path : o.relative_path ≡ join (dir ++ name ∷ []) b'/'
  pub kind : o.is_dir ≡ is_dir

-- The objects name the files, with size and time, and the directories among the entries, one each and
-- in the same order; links have none.
pub data Listed (dir : Names) : List (Text × Node) → List Object → Type 0 where
  nothing : Listed dir [] []
  of_file :
      {name : Text} {content : List ℕ} {time : ℕ} {o : Object} {xs : List (Text × Node)}
      {os : List Object}
      → IsNamed dir name false o
      → o.size ≡ length content
      → o.modified_at ≡ time
      → Listed dir xs os
      → Listed dir ((name, file content time) ∷ xs) (o ∷ os)
  of_folder :
      {name : Text} {o : Object} {xs : List (Text × Node)} {os : List Object}
      → IsNamed dir name true o
      → Listed dir xs os
      → Listed dir ((name, folder) ∷ xs) (o ∷ os)
  of_link :
      {name : Text} {e : OsError} {xs : List (Text × Node)} {os : List Object}
      → Listed dir xs os
      → Listed dir ((name, link e) ∷ xs) os

Before-text_le : (s t : Text) → text_le s t ≡ true → Before s t
unfolding Before text_le
Before-text_le [] t h = tt
Before-text_le (c ∷ s) [] h = absurd (cc h)
Before-text_le (c ∷ s) (d ∷ t) h = elim (Bool-cases (c == d)) [
  | inl e ↦ inr ((==_iff c d).0 e, Before-text_le s t (rw e at h))
  | inr e ↦ inl (ground (arith, rw e at h))
]

text_le_total : (s t : Text) → (text_le s t ≡ true) ⊎ (text_le t s ≡ true)
unfolding text_le
text_le_total [] t = inl refl
text_le_total (c ∷ s) [] = inr refl
text_le_total (c ∷ s) (d ∷ t) = ground (arith, text_le_total s t)

text_le_trans : (s t u : Text) → text_le s t ≡ true → text_le t u ≡ true → text_le s u ≡ true
unfolding text_le
text_le_trans [] t u h k = refl
text_le_trans (c ∷ s) [] u h k = absurd (cc h)
text_le_trans (c ∷ s) (d ∷ t) [] h k = absurd (cc k)
text_le_trans (c ∷ s) (d ∷ t) (e ∷ u) h k = ground (arith, h, k, text_le_trans s t u)

Sorted-InOrder : (xs : List (Text × Node)) → Sorted by_name xs → InOrder xs
unfolding InOrder by_name
Sorted-InOrder [] h = tt
Sorted-InOrder (x ∷ xs) h = (All-imp (λ y. Before-text_le x.0 y.0) xs h.0, Sorted-InOrder xs h.1)

order_by-InOrder : (xs : List (Text × Node)) → InOrder (order_by by_name xs)
unfolding by_name
order_by-InOrder xs =
    Sorted-InOrder (order_by by_name xs) (
      order_by-Sorted by_name (λ x y. text_le_total x.0 y.0) (λ x y z. text_le_trans x.0 y.0 z.0)
        xs)

module _ {ℓ} {A : Type ℓ} (le : A → A → Bool) where
  insert_sorted-Perm : (x : A) (xs : List A) → Perm (insert_sorted le x xs) (x ∷ xs)
  unfolding insert_sorted
  insert_sorted-Perm x [] = Perm.rfl
  insert_sorted-Perm x (y ∷ ys) = elim (Bool-cases (le x y)) [
    | inl e ↦ rw (insert_sorted, e) Perm.rfl
    | inr e ↦
        rw (insert_sorted, e)
          (Perm.trans (Perm.cons y (insert_sorted-Perm x ys)) (Perm.swap x y ys))
  ]

  order_by-Perm : (xs : List A) → Perm (order_by le xs) xs
  unfolding order_by
  order_by-Perm [] = Perm.nil
  order_by-Perm (x ∷ xs) =
      Perm.trans (insert_sorted-Perm x (order_by le xs)) (Perm.cons x (order_by-Perm xs))

named_path :
    (dir : Names) (name : Text)
    → name ≢ []
    → to_slash (dir ++ name ∷ []) ≡ join (dir ++ name ∷ []) b'/'
unfolding to_slash or_dot join
named_path [] [] ne = absurd (ne refl)
named_path [] (c ∷ s) ne = refl
named_path ([] ∷ []) name ne = refl
named_path ((c ∷ s) ∷ []) name ne = refl
named_path ([] ∷ d ∷ dir) name ne = refl
named_path ((c ∷ s) ∷ d ∷ dir) name ne = refl

objects_of-Listed :
    (c : Call) (dir : Names) (xs : List (Text × Node))
    → All (λ x. x.0 ≢ []) xs
    → Listed dir xs (objects_of c dir xs)
unfolding objects_of object_of
objects_of-Listed c dir [] h = nothing
objects_of-Listed c dir ((n, file b t) ∷ xs) h =
    of_file (record { path = named_path dir n h.0; kind = refl }) refl refl
      (objects_of-Listed c dir xs h.1)
objects_of-Listed c dir ((n, folder) ∷ xs) h =
    of_folder (record { path = named_path dir n h.0; kind = refl }) (objects_of-Listed c dir xs h.1)
objects_of-Listed c dir ((n, link e) ∷ xs) h = of_link (objects_of-Listed c dir xs h.1)

-- The pages of `List`, asked for one behind the other from an empty cursor to an empty cursor, end
-- with the objects of the directory, whatever the limit: its entries, permuted so that their names are
-- in order, are listed one by one, a file and a directory each with one object of its path and kind,
-- a file with its size and time, a link with none. The directory does not change, no entry has an
-- empty name, the context is not done, and one turn for each entry and one more is enough.
pub list_pages :
    (c : Call) (dir : Text) (limit : ℕ) (d : Disk) {rel : Names} {entries : List (Text × Node)}
    (fuel : ℕ)
    → ((k : ℕ) → c.cancelled k ≡ false)
    → clean dir ≡ ok rel
    → read_dir rel d ≡ done entries
    → All (λ x. x.0 ≢ []) entries
    → length entries ≤ max_int
    → length entries < fuel
    → (objects : List Object) × (all_pages fuel (λ cursor. list c dir cursor limit d) []
        ≡ some (ok objects))
      × (sorted : List (Text × Node)) × Perm sorted entries
      × InOrder sorted
      × Listed rel sorted objects
list_pages c dir limit d {rel = rel} {entries = entries} fuel never accepted read named short h = (
  objects_of c rel (order_by by_name entries),
  list-objects c dir limit d fuel never accepted read short h,
  order_by by_name entries,
  order_by-Perm by_name entries,
  order_by-InOrder entries,
  objects_of-Listed c rel (order_by by_name entries)
      (All-order_by (λ x. x.0 ≢ []) by_name entries named),
)
