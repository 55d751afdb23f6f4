-- ===== src/Media/Work.antt =====
-- The jobs of the catalog as the workers run them: `worker` of internal/jobs/queue.go, the handlers
-- of internal/media/catalog.go, and their names in cmd/ialbum/main.go.
pub mod Ends
mod Tests
use ialbum.Base.{ℕ, Bool, true, false, List, Option, none, some, if◌then◌else◌}
use ialbum.Text.{Text, codes, text_eq}
use ialbum.Time.{Time}
use ialbum.Jobs
use ialbum.Jobs.{Payload, Job, Failure, claim, finish}
use ialbum.Media.Types.{Error, nil_dereference, waiting_auth, Result, ok, err, Db, Env, Stores}
use ialbum.Media.Scan.{Faults, scan}
use ialbum.Media.Transfer.{backup}
use ialbum.Media.Mirror.{execute_mirror_delete}

-- What stands outside: the job of the media processor, the bytes of messages, the most pages of a
-- walk, and the failing statements of a scan.
pub record Outside (W : Type 0) : Type 0 where
  pub thumbnail : Payload → Db × W → (Db × W) × Result (Unit {0})
  pub message : Error → List ℕ
  pub no_handler : Text → List ℕ
  pub pages : ℕ
  pub scan_faults : Faults

abbrev text_or : Option Text → Text
text_or none = codes ""
text_or (some t) = t

abbrev number_or : Option ℕ → ℕ
number_or none = 0
number_or (some n) = n

abbrev is_waiting_auth : Error → Bool
is_waiting_auth waiting_auth = true
is_waiting_auth e = false

-- How a handler ends: it returns, with a failure or without, or the process dies of a panic.
pub data Ending : Type 0 where
  returned : Option Failure → Ending
  panicked : Ending

module _ {W : Type 0} (stores : Stores W) (env : Env) (outside : Outside W) where
  -- What a handler comes to. The dereference of nil is a panic, which no worker recovers.
  abbrev pub ending_of : Result (Unit {0}) → Ending
  ending_of (ok u) = returned none
  ending_of (err nil_dereference) = panicked
  ending_of (err e) =
      returned (some (record { needs_auth = is_waiting_auth e; message = outside.message e }))

  abbrev pub Outcome : Type 0
  Outcome = (Db × W) × Ending

  abbrev outcome_of : (Db × W) × Result (Unit {0}) → Outcome
  outcome_of out = (out.0, ending_of out.1)

  abbrev scan_outcome : W → Option (Db × Result (Unit {0})) → Option Outcome
  scan_outcome w none = none
  scan_outcome w (some out) = some ((out.0, w), ending_of out.1)

  -- ScanJob
  unfoldable pub scan_job : Time → Payload → Db × W → Option Outcome
  scan_job now p s = scan_outcome s.1 (
      scan stores env outside.scan_faults outside.pages now (text_or p.album_id)
        (number_or p.generation) s)

  -- BackupJob
  unfoldable pub backup_job : Time → Payload → Db × W → Outcome
  backup_job now p s =
      outcome_of (backup stores env now (text_or p.album_id) (text_or p.media_id) s)

  -- MirrorDeleteJob
  unfoldable pub mirror_delete_job : Time → Payload → Db × W → Outcome
  mirror_delete_job now p s =
      outcome_of (execute_mirror_delete stores env now (text_or p.album_id) (text_or p.media_id) s)

  -- The handlers that are registered; `none` where a scan walks more pages than `pages`.
  unfoldable pub handle : Time → Job → Db × W → Option Outcome
  unfolding scan_job backup_job mirror_delete_job
  handle now job s =
      if text_eq job.kind (codes "scan")
      then scan_job now job.payload s
      else if text_eq job.kind (codes "backup")
      then some (backup_job now job.payload s)
      else if text_eq job.kind (codes "mirror-delete")
      then some (mirror_delete_job now job.payload s)
      else if text_eq job.kind (codes "thumbnail")
      then some (outcome_of (outside.thumbnail job.payload s))
      else some (
        s,
        returned (some (record { needs_auth = false; message = outside.no_handler job.kind })),
      )

  abbrev pub end_job : Time → ℕ → Job → Option Outcome → Option (Db × W)
  end_job now jitter job none = none
  end_job now jitter job (some (s, panicked)) = some s
  end_job now jitter job (some ((db, w), returned failure)) =
      some (record db { jobs = finish now jitter job failure db.jobs }, w)

  -- A tick of a worker: its claim, the handler and the end of the job, each with its clock. After a
  -- panic the process is gone, and `finish` is not written.
  unfoldable pub work : Time → Time → Time → ℕ → Db × W → Option (Db × W)
  unfolding handle
  work claimed handled ended jitter (db, w) =
      let (jobs, taken) = claim claimed db.jobs in
      elim taken [
        | Jobs.err e ↦ some (record db { jobs = jobs }, w)
        | Jobs.ok job ↦ end_job ended jitter job (handle handled job (record db { jobs = jobs }, w))
      ]
