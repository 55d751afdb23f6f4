-- ===== src/Jobs/Recovery.antt =====
-- internal/jobs/queue.go, `Start`: what becomes of the jobs that a stopped process was running.
use ialbum.Base.{◌≢◌, List, [], ◌∷◌}
use ialbum.Text.{Text}
use ialbum.Time.{Time}
use ialbum.Jobs.{Table}
use ialbum.Jobs.Invariant.{Op, starts, finishes, apply}

-- The statements that a running process makes while no worker of it holds the job.
abbrev pub Spares : Text → Op → Type 0
Spares id (starts now) = ⊥
Spares id (finishes now jitter job result) = id ≢ job.id
Spares id _ = Unit {0}

unfoldable pub apply_all : List Op → Table → Table
apply_all [] t = t
apply_all (op ∷ ops) t = apply_all ops (apply op t)
