-- ===== src/Media/Transfer/OnDisk/Tests.antt =====
-- A backup from one local directory to another.
use ialbum.Base.{◌*◌, ◌≡◌, [], ◌∷◌, false, none, refl, inl, inr, if◌then◌else◌, Bool-cases}
use ialbum.Text.{Text, codes, text_eq}
use ialbum.Time.{second}
use ialbum.Storage.Disk.{Disk, Names, look, lookup}
use ialbum.Storage.Disk.Laws.{IsTree}
use ialbum.Storage.Local.{Call, Source}
use ialbum.Storage.Local.Change.{put_at}
use ialbum.Storage.Local.Put.{put_at_cases}
use ialbum.Media.Tests.{env, db, view, photo, binds_backup}
use ialbum.Media.Transfer.Backups.{backup_again}
use ialbum.Media.Types.{ok}
use ialbum.Media.Transfer.{backup}
use ialbum.Media.Transfer.Backups.{Due}
use ialbum.Media.Transfer.OnDisk.{Disks, local_stores, Restored, backup-Restored}

abbrev pub call : Call
call = record {
  now = 7;
  suffix = codes "00ff";
  cancelled = λ n. false;
  write_fault = λ n. none;
  folder_size = λ p. 4096;
  folder_time = λ p. 0;
  mime_from_name = λ s. codes "image/jpeg";
}

abbrev source : Source
source = record { open_error = none; reads = (1 ∷ 2 ∷ []) ∷ []; read_error = none }

abbrev pub path : Names
path = codes "in" ∷ codes "x.jpg" ∷ []

abbrev primary_disk : Disk
primary_disk = (put_at call path source false []).0

abbrev pub disks : Disks
disks id = if text_eq id (codes "P") then primary_disk else []

empty-IsTree : IsTree []
unfolding look lookup
empty-IsTree [] n ns x e = refl
empty-IsTree (m ∷ a) n ns x e = absurd (cc e)

pub disks-IsTree : (id : Text) → IsTree (disks id)
disks-IsTree id = elim (Bool-cases (text_eq id (codes "P"))) [
  | inl e ↦ rw e ((put_at_cases call path source false [] empty-IsTree).0)
  | inr e ↦ rw e empty-IsTree
]

due : Due (local_stores call) env (codes "A") (codes "m") (db, disks)
unfolding ialbum.Media.Index.get_album ialbum.Sql.find text_eq ialbum.Media.Index.get_media
due = record {
  album = view;
  target = binds_backup;
  media = photo;
  found_album = refl;
  has_target = refl;
  enabled = refl;
  found_media = refl;
  pending = refl;
}

backup-Restored_example :
    Restored call call env due.album.primary due.target due.media disks
      (backup (local_stores call) env second (codes "A") (codes "m") (db, disks)).0.1
unfolding backup ialbum.Media.Index.get_album ialbum.Sql.find text_eq ialbum.Media.Index.get_media
    ialbum.Media.Transfer.backup_media local_stores ialbum.Media.Transfer.copy_media
    ialbum.Media.Transfer.store_copy ialbum.Storage.Path.normalize_relative
    ialbum.Storage.Path.accept_cleaned ialbum.Text.contains ialbum.Text.replace_all
    ialbum.Text.trim_space ialbum.Text.trim_prefix ialbum.Media.Names.join_path ialbum.Text.trim
    ialbum.Storage.Path.clean ialbum.Text.has_prefix ialbum.Text.join ialbum.Text.split
    ialbum.Media.Names.fingerprint put_at ialbum.Storage.Disk.names_eq ialbum.Storage.Disk.lookup
    ialbum.Storage.Disk.look
backup-Restored_example =
    backup-Restored call env call second (codes "A") (codes "m") (db, disks) disks-IsTree due refl

backup_again_example :
    backup
      (local_stores call)
      env
      (9 * second)
      (codes "A")
      (codes "m")
      (backup (local_stores call) env second (codes "A") (codes "m") (db, disks)).0
    ≡ ((backup (local_stores call) env second (codes "A") (codes "m") (db, disks)).0, ok tt)
unfolding backup ialbum.Media.Index.get_album ialbum.Sql.find text_eq ialbum.Media.Index.get_media
    ialbum.Media.Transfer.backup_media local_stores ialbum.Media.Transfer.copy_media
    ialbum.Media.Transfer.store_copy ialbum.Storage.Path.normalize_relative
    ialbum.Storage.Path.accept_cleaned ialbum.Text.contains ialbum.Text.replace_all
    ialbum.Text.trim_space ialbum.Text.trim_prefix ialbum.Media.Names.join_path ialbum.Text.trim
    ialbum.Storage.Path.clean ialbum.Text.has_prefix ialbum.Text.join ialbum.Text.split
    ialbum.Media.Names.fingerprint put_at ialbum.Storage.Disk.names_eq ialbum.Storage.Disk.lookup
    ialbum.Storage.Disk.look
backup_again_example =
    backup_again (local_stores call) env second (9 * second) (codes "A") (codes "m") (db, disks)
      refl
