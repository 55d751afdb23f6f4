-- ===== src/Jobs/Exclusive.antt =====
-- internal/jobs/queue.go: the statements of workers and of the API on one table, in any order. The
-- UPDATE of `claim` for one candidate and the read that follows it are steps of their own.
use ialbum.Base.{ℕ, ◌≡◌, List, ◌∷◌, map, Option, All, ◌≢◌, Elem, NotIn, Distinct}
use ialbum.Text.{Text}
use ialbum.Time.{Time}
use ialbum.Sql.{delete}
use ialbum.Jobs.{
  Job, Table, Payload, Failure, ok, has_id, enqueue, acquire, get, heartbeat, finish, retry,
  cancel_album,
}
use ialbum.Jobs.Invariant.{IsWellFormed}
use ialbum.Jobs.Rows.{Row}

-- The table, and the jobs that the workers of this process run now: each is the row as the worker's
-- UPDATE left it, until the worker reads the row again.
pub record System : Type 0 where
  pub jobs : Table
  pub held : List Job

-- One statement on the table. A worker may try the UPDATE of `claim` for any id and at any time: the
-- SELECT that gave it the id is as old as may be. It holds the job where the UPDATE affected one row.
pub data Step (s : System) : System → Type 0 where
  enqueue_job :
      (id : Text) (now : Time) (kind dedupe : Text) (payload : Payload) (run_at : Time)
      → NotIn id (map (λ j. j.id) s.jobs)
      → Step s (record s { jobs = (enqueue id now kind dedupe payload run_at s.jobs).0 })
  acquire_job :
      (now : Time) (id : Text) (t : Table) (j : Job)
      → acquire now id s.jobs ≡ (t, 1)
      → get id t ≡ ok j
      → Step s (record { jobs = t; held = j ∷ s.held })
  miss_job :
      (now : Time) (id : Text) (t : Table) (n : ℕ)
      → acquire now id s.jobs ≡ (t, n)
      → n ≢ 1
      → Step s (record s { jobs = t })
  read_job :
      (j j' : Job)
      → Elem j s.held
      → get j.id s.jobs ≡ ok j'
      → Step s (record s { held = j' ∷ delete (has_id j.id) s.held })
  beat_job : (now : Time) (id : Text) → Step s (record s { jobs = heartbeat now id s.jobs })
  finish_job :
      (now : Time) (jitter : ℕ) (j : Job) (result : Option Failure)
      → Elem j s.held
      → Step s
          (record { jobs = finish now jitter j result s.jobs; held = delete (has_id j.id) s.held })
  retry_job : (now : Time) (id : Text) → Step s (record s { jobs = (retry now id s.jobs).0 })
  cancel_jobs :
      (now : Time) (album : Text) → Step s (record s { jobs = cancel_album now album s.jobs })

pub data Reach (s : System) : System → Type 0 where
  stay : Reach s s
  after : {t u : System} → Reach s t → Step t u → Reach s u

pub record IsExclusive (s : System) : Type 0 where
  pub table : IsWellFormed s.jobs
  pub alone : Distinct (map (λ j. j.id) s.held)
  pub rows : All (Row s.jobs) s.held
