-- ===== src/Media/Work/Tests.antt =====
-- The turn of a worker that takes the backup of one media.
use ialbum.Base.{not, arith, ◌*◌, List, [], ◌∷◌, none, some, refl, ◌≡◌}
use ialbum.Text.{codes}
use ialbum.Time.{second}
use ialbum.Jobs
use ialbum.Jobs.{Job, pending, has_id}
use ialbum.Jobs.Invariant.{IsWellFormed}
use ialbum.Sql.{select}
use ialbum.Jobs.Claim.{taken}
use ialbum.Media.Types.{ok, Db}
use ialbum.Media.Tests.{File, disks, env, state}
use ialbum.Media.Work.{Outside, work}
use ialbum.Media.Work.Ends.{Ended, with_jobs, work-backup}

abbrev job : Job
job = record {
  id = codes "j";
  kind = codes "backup";
  dedupe_key = codes "backup:m";
  payload = record { album_id = some (codes "A"); media_id = some (codes "m"); generation = none };
  state = pending;
  attempts = 0;
  max_attempts = 8;
  next_run_at = 10;
  lease_until = none;
  heartbeat_at = none;
  last_error = [];
  created_at = 5;
  updated_at = 5;
}

abbrev outside : Outside (List File)
outside = record {
  thumbnail = λ p s. (s, ok tt);
  message = λ e. 0x65 ∷ [];
  no_handler = λ kind. kind;
  pages = 3;
  scan_faults = record { upsert = λ k. none; rows = none };
}

abbrev waiting : Db × List File
waiting = with_jobs (job ∷ []) state

one_job : IsWellFormed waiting.0.jobs
one_job = record { ids = (tt, tt); keys = (tt, tt); rows = (ground arith, tt) }

work-backup_example :
    (s' : Db × List File) × (work disks env outside
        (20 * second)
        (21 * second)
        (22 * second)
        0
        waiting
      ≡ some s')
    × (select (λ k. not (has_id (codes "j") k)) s'.0.jobs
        ≡ select (λ k. not (has_id (codes "j") k)) waiting.0.jobs)
    × Ended disks env outside
        (21 * second)
        (22 * second)
        (taken (20 * second) job)
        (with_jobs (taken (20 * second) job ∷ []) waiting)
        s'
unfolding Jobs.claim Jobs.candidates Jobs.claim_first Jobs.acquire Jobs.get ialbum.Sql.select
    ialbum.Sql.find ialbum.Sql.order_by ialbum.Sql.update ialbum.Sql.count ialbum.Text.text_eq
work-backup_example =
    work-backup disks env outside (20 * second) (21 * second) (22 * second) 0 waiting one_job refl
      refl
