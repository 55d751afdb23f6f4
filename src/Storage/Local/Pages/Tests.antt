-- ===== src/Storage/Local/Pages/Tests.antt =====
-- A directory of three files, two to a page.
use ialbum.Base.{◌≡◌, refl, false, none, List, [], ◌∷◌, some, arith}
use ialbum.Text.{Text, codes, itoa, itoa_fuel}
use ialbum.Storage.{ok, Object}
use ialbum.Storage.Disk.{Disk, Node, file, folder, link, path_escapes, done, read_dir}
use ialbum.Storage.Local.{Call, clean}
use ialbum.Storage.Local.Listing.{list}
use ialbum.Storage.Local.Pages.{all_pages}
use ialbum.Storage.Local.Pages.Named.{InOrder, Listed, list_pages}
use mathlib.Core.List.{Perm}

abbrev call : Call
call = record {
  now = 7;
  suffix = [];
  cancelled = λ n. false;
  write_fault = λ n. none;
  folder_size = λ p. 4096;
  folder_time = λ p. 0;
  mime_from_name = λ s. codes "image/jpeg";
}

abbrev entries : List (Text × Node)
entries =
    (codes "c", file (1 ∷ []) 3)
    ∷ (codes "l", link path_escapes)
    ∷ (codes "a", folder)
    ∷ (codes "b", file [] 5)
    ∷ []

abbrev disk : Disk
disk =
    (codes "c" ∷ [], file (1 ∷ []) 3)
    ∷ (codes "l" ∷ [], link path_escapes)
    ∷ (codes "a" ∷ [], folder)
    ∷ (codes "b" ∷ [], file [] 5)
    ∷ []

read : read_dir [] disk ≡ done entries
unfolding read_dir
read = refl

root_cleaned : clean [] ≡ ok []
unfolding clean ialbum.Storage.Path.normalize_relative ialbum.Text.contains ialbum.Text.replace_all
    ialbum.Text.trim_space
root_cleaned = refl

list_pages_example :
    (objects : List Object) × (all_pages 5 (λ cursor. list call [] cursor 2 disk) []
      ≡ some (ok objects))
    × (sorted : List (Text × Node)) × Perm sorted entries
    × InOrder sorted
    × Listed [] sorted objects
list_pages_example =
    list_pages call [] 2 disk 5 (λ k. refl) root_cleaned read
      ((λ q. cc q), ((λ q. cc q), ((λ q. cc q), ((λ q. cc q), tt)))) (omega arith) (omega arith)
