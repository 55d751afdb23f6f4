-- ===== src/Jobs/Backoff.antt =====
-- internal/jobs/queue.go, `backoff` and the failing branch of `finish`: how a job is tried again.
use Prim.Native.Nat.{min}
use native.Mathlib.Nat.{pow-succ'}
use ialbum.Base.{
  ℕ, suc, ◌+◌, ◌-◌, ◌*◌, ◌^◌, ◌≤◌, ◌<◌, ◌≡◌, refl, ◌∙◌, true, false, List, [], ◌∷◌, some, arith,
  length, leb, none, ◌==◌, if◌then◌else◌,
}
use ialbum.Text.{Text}
use ialbum.Text.Laws.{text_eq_refl}
use ialbum.Time.{Time, unix, second, hour}
use ialbum.Sql.{find}
use ialbum.Sql.Laws.{find-update, find-passes}
use ialbum.Jobs.Claim.{taken}
use ialbum.Jobs.{
  Job, Table, pending, failed, Failure, ok, err, is_pending, has_id, acquire, get, truncate,
  backoff, finish,
}

pow_step : (a : ℕ) → 2 ^ (a + 2 - 1) ≡ 2 * 2 ^ (a + 1 - 1)
pow_step a =
    let upper : a + 2 - 1 ≡ suc a = omega arith in
    let lower : a + 1 - 1 ≡ a = omega arith in rw (upper, lower, pow-succ' 2 a)

-- The wait after a failed attempt, without its jitter, starts at 30 seconds and doubles from one
-- attempt to the next until it reaches six hours, where it stays.
backoff_doubles :
    (a : ℕ)
    → (backoff 1 0 ≡ 30 * second) × (backoff (a + 2) 0 ≡ min (2 * backoff (a + 1) 0) (6 * hour))
unfolding backoff
backoff_doubles a = (refl, ground (arith, pow_step a))

-- An attempt that fails: when it starts and ends, its jitter, and the message of its error.
pub record Try : Type 0 where
  pub starts : Time
  pub ends : Time
  pub jitter : ℕ
  pub message : List ℕ

abbrev pub failure : Try → Failure
failure e = record { needs_auth = false; message = e.message }

-- A worker claims the job and its handler returns an error that is not `ErrWaitingAuth`.
pub fail_once : Text → Try → Table → Table
fail_once id e t =
    let (t', n) = acquire e.starts id t in
    elim (get id t') [ ok j ↦ finish e.ends e.jitter j (some (failure e)) t' | err _ ↦ t' ]

pub fail_times : Text → List Try → Table → Table
unfolding fail_once
fail_times id [] t = t
fail_times id (e ∷ es) t = fail_times id es (fail_once id e t)

-- The row after one more failed attempt.
abbrev failed_row : Try → Job → Job
failed_row e j = record j {
  state = if leb j.max_attempts (j.attempts + 1) then failed else pending;
  attempts = j.attempts + 1;
  next_run_at = unix (e.ends + backoff (j.attempts + 1) e.jitter);
  lease_until = none;
  heartbeat_at = none;
  last_error = truncate e.message 2000;
  updated_at = unix e.ends;
}

find-acquired :
    (id : Text) (now : Time) (t : Table) {j : Job}
    → find (has_id id) t ≡ some j
    → is_pending j.state ≡ true
    → find (has_id id) (acquire now id t).0 ≡ some (taken now j)
unfolding acquire
find-acquired id now t f p =
    find-update (has_id id) _ _ (λ x. refl) t ∙ rw (f, find-passes (has_id id) t f, p)

-- The row of a job whose claim ends in an error.
find-finish :
    (id : Text) (e : Try) (t : Table) {k : Job}
    → find (has_id id) t ≡ some k
    → find (has_id id) (finish e.ends e.jitter k (some (failure e)) t)
      ≡ some (record k {
        state = if leb k.max_attempts k.attempts then failed else pending;
        next_run_at = unix (e.ends + backoff k.attempts e.jitter);
        lease_until = none;
        heartbeat_at = none;
        last_error = truncate e.message 2000;
        updated_at = unix e.ends;
      })
unfolding finish
find-finish id e t {k = k} f = find-update (has_id id) _ _ (λ x. refl) t ∙ rw (f, text_eq_refl k.id)

find-fail_once :
    (id : Text) (e : Try) (t : Table) {j : Job}
    → find (has_id id) t ≡ some j
    → is_pending j.state ≡ true
    → find (has_id id) (fail_once id e t) ≡ some (failed_row e j)
unfolding fail_once get
find-fail_once id e t {j = j} f p =
    let g = find-acquired id e.starts t f p in
    rw (g, get, fail_once) (find-finish id e (acquire e.starts id t).0 g)

-- A pending job whose attempts all fail is tried again until it has used `max_attempts`, and then
-- it is failed: it is pending as long as attempts are left, each attempt counts once, and the last
-- one makes it failed.
pub fail_times-ends :
    (id : Text) (es : List Try) (t : Table) {j : Job}
    → find (has_id id) t ≡ some j
    → is_pending j.state ≡ true
    → j.attempts + length es ≤ j.max_attempts
    → 0 < length es
    → (r : Job) × (find (has_id id) (fail_times id es t) ≡ some r)
      × (r.attempts ≡ j.attempts + length es)
      × (r.state ≡ (if r.attempts == j.max_attempts then failed else pending))
unfolding fail_times
fail_times-ends id [] t f p h l = absurd (omega arith)
fail_times-ends id (e ∷ []) t {j = j} f p h l =
    (failed_row e j, find-fail_once id e t f p, omega arith, ground arith)
fail_times-ends id (e ∷ d ∷ es) t {j = j} f p h l =
    let (r, g, a, s) =
      fail_times-ends id (d ∷ es) (fail_once id e t) (find-fail_once id e t f p) (ground arith)
        (omega arith) (omega arith) in
    (r, g, omega arith, s)
