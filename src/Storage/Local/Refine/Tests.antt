-- ===== src/Storage/Local/Refine/Tests.antt =====
-- Calls on an empty directory.
use ialbum.Base.{◌≡◌, refl, true, false, List, [], ◌∷◌, none, some}
use ialbum.Text.{
  Text, codes, text_eq, has_prefix, trim_prefix, contains, replace_all, trim_space, split, join,
}
use ialbum.Storage.{ok, conflict}
use ialbum.Storage.Path.{normalize_relative, accept_cleaned}
use ialbum.Storage.Path
use ialbum.Storage.Disk.{Names, file, folder, names_eq, look, lookup}
use ialbum.Storage.Disk.Laws.{IsTree}
use ialbum.Storage.Local.{Call, Source, clean, to_slash, object_of, open_file, ranged}
use ialbum.Storage.Local.Reads.{open_file-put}
use ialbum.Storage.Local.Change.{put}
use ialbum.Storage.Local.Refine.{Op, put_op, move_op, delete_op, run}

abbrev call : Call
call = record {
  now = 7;
  suffix = codes "00ff";
  cancelled = λ n. false;
  write_fault = λ n. none;
  folder_size = λ p. 4096;
  folder_time = λ p. 0;
  mime_from_name = λ s. codes "image/jpeg";
}

abbrev source : Source
source = record { open_error = none; reads = (1 ∷ 2 ∷ []) ∷ (3 ∷ []) ∷ []; read_error = none }

-- A reader that fails behind its first bytes.
abbrev broken : Source
broken = record source { reads = (1 ∷ []) ∷ []; read_error = some conflict }

abbrev ops : List Op
ops =
    put_op call (codes "a/b.jpg") source true
    ∷ put_op call (codes "a/b.jpg") broken false
    ∷ move_op (codes "a") (codes "c") false
    ∷ delete_op (codes "c")
    ∷ []

ran : run ops [] ≡ (
  (codes "c" ∷ codes "b.jpg" ∷ [], file (1 ∷ 2 ∷ 3 ∷ []) 7) ∷ (codes "c" ∷ [], folder) ∷ [],
  true ∷ false ∷ true ∷ false ∷ [],
)
unfolding run normalize_relative contains replace_all trim_space text_eq has_prefix accept_cleaned
    Path.clean join split trim_prefix names_eq
ran = refl

empty-IsTree : IsTree []
unfolding look lookup
empty-IsTree [] n ns x e = refl
empty-IsTree (m ∷ a) n ns x e = absurd (cc e)

photo : Names
photo = codes "a" ∷ codes "b.jpg" ∷ []

photo_cleaned : clean (codes "a/b.jpg") ≡ ok photo
unfolding photo clean normalize_relative contains replace_all trim_space text_eq has_prefix
    accept_cleaned Path.clean join split trim_prefix
photo_cleaned = refl

stored :
    (put call (codes "a/b.jpg") source true []).1 ≡ ok (object_of call (codes "a/b.jpg") 3 7 false)
unfolding put normalize_relative contains replace_all trim_space text_eq has_prefix accept_cleaned
    Path.clean join split trim_prefix names_eq
stored = refl

open_file-put_example :
    open_file call (codes "a/b.jpg") none (put call (codes "a/b.jpg") source true []).0
    ≡ ranged none (object_of call (to_slash photo) 3 7 false) (1 ∷ 2 ∷ 3 ∷ [])
open_file-put_example =
    open_file-put call call (codes "a/b.jpg") source true [] none empty-IsTree photo_cleaned stored
