-- ===== src/Jobs/Tests.antt =====
-- Runs of the queue on small tables, and the theorems at inputs that meet their hypotheses.

use ialbum.Base.{not, ◌⊎◌, ◌==◌, if◌then◌else◌, ◌*◌, ◌≡◌, refl, [], ◌∷◌, some, none, arith, length}
use ialbum.Text.{text_eq, codes}
use ialbum.Text.Laws.{ne-of_test}
use ialbum.Time.{second}
use ialbum.Sql.{update, count, select, find, order_by}
use ialbum.Jobs.{
  Job, Table, Payload, pending, running, failed, ok, err, no_rows, enqueue, candidates, acquire,
  get, claim, retry, has_id, has_key,
}
use ialbum.Jobs.Invariant.{IsWellFormed, apply, apply-IsWellFormed, acquires}
use ialbum.Jobs.Claim.{Claimed, taken, claim-Claimed}
use ialbum.Jobs.Backoff.{Try, fail_times, fail_times-ends}
use ialbum.Jobs.Dedupe.{enqueue_again}
use ialbum.Jobs.Control.{IsRetried, retry_cases}

abbrev of_album : Payload
of_album = record { album_id = some (codes "A"); media_id = none; generation = some 1 }

-- A scan that waits, due at second 10.
abbrev scan : Job
scan = record {
  id = codes "j1";
  kind = codes "scan";
  dedupe_key = codes "scan:A:1:0";
  payload = of_album;
  state = pending;
  attempts = 0;
  max_attempts = 8;
  next_run_at = 10;
  lease_until = none;
  heartbeat_at = none;
  last_error = [];
  created_at = 5;
  updated_at = 5;
}

-- A backup that runs, with a lease until second 150.
abbrev backup : Job
backup = record {
  id = codes "j2";
  kind = codes "backup";
  dedupe_key = codes "backup:m1";
  payload = of_album;
  state = running;
  attempts = 1;
  max_attempts = 8;
  next_run_at = 7;
  lease_until = some 150;
  heartbeat_at = some 30;
  last_error = [];
  created_at = 6;
  updated_at = 30;
}

abbrev jobs : Table
jobs = scan ∷ backup ∷ []

jobs-IsWellFormed : IsWellFormed jobs
unfolding text_eq
jobs-IsWellFormed = record {
  ids = ((ne-of_test (codes "j2") (codes "j1") refl, tt), (tt, tt));
  keys = ((ne-of_test (codes "backup:m1") (codes "scan:A:1:0") refl, tt), (tt, tt));
  rows = (ground arith, (ground arith, tt));
}

claim_takes_scan :
    claim (20 * second) jobs
    ≡ (taken (20 * second) scan ∷ backup ∷ [], ok (taken (20 * second) scan))
unfolding claim candidates acquire get select find order_by update count text_eq
claim_takes_scan = refl

claim-Claimed_example : Claimed (20 * second) jobs (claim (20 * second) jobs)
claim-Claimed_example = claim-Claimed (20 * second) jobs jobs-IsWellFormed

apply-IsWellFormed_example : IsWellFormed (apply (acquires (20 * second) (codes "j1")) jobs)
apply-IsWellFormed_example =
    apply-IsWellFormed (acquires (20 * second) (codes "j1")) jobs tt jobs-IsWellFormed

abbrev try : Try
try = record { starts = 20 * second; ends = 21 * second; jitter = 0; message = 0x65 ∷ [] }

fail_times-ends_example :
    (r : Job) × (find (has_id (codes "j1")) (fail_times (codes "j1") (try ∷ try ∷ []) jobs)
      ≡ some r)
    × (r.attempts ≡ 2)
    × (r.state ≡ (if r.attempts == 8 then failed else pending))
unfolding find text_eq
fail_times-ends_example =
    fail_times-ends (codes "j1") (try ∷ try ∷ []) jobs {j = scan} refl refl (omega arith)
      (omega arith)

enqueue_again_example :
    (length
        (enqueue (codes "j3") (20 * second) (codes "scan") (codes "scan:A:1:0") of_album 0 jobs).0
      ≡ 2)
    × ((enqueue (codes "j3") (20 * second) (codes "scan") (codes "scan:A:1:0") of_album 0 jobs).1
        ≡ some (codes "j1"))
    × (find
          (has_key (codes "scan:A:1:0"))
          (enqueue (codes "j3") (20 * second) (codes "scan") (codes "scan:A:1:0") of_album 0 jobs).0
        ≡ some (record scan { next_run_at = 0; updated_at = 20 }))
unfolding find text_eq
enqueue_again_example =
    enqueue_again (codes "j3") (20 * second) (codes "scan") (codes "scan:A:1:0") of_album 0 jobs
      {j = scan} refl

-- A job that pends is not retried.
retry_cases_example :
    ((r : IsRetried (codes "j1") jobs) × ((retry 0 (codes "j1") jobs).1 ≡ ok tt)
      × (find (has_id (codes "j1")) (retry 0 (codes "j1") jobs).0
          ≡ some (record r.0 {
            state = pending;
            attempts = 0;
            next_run_at = 0;
            last_error = [];
            updated_at = 0;
          }))
      × (select (λ k. not (has_id (codes "j1") k)) (retry 0 (codes "j1") jobs).0
          ≡ select (λ k. not (has_id (codes "j1") k)) jobs))
    ⊎ ((IsRetried (codes "j1") jobs → ⊥) × (retry 0 (codes "j1") jobs ≡ (jobs, err no_rows)))
retry_cases_example = retry_cases 0 (codes "j1") jobs jobs-IsWellFormed
