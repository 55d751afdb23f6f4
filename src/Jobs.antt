-- ===== src/Jobs.antt =====
-- internal/jobs/queue.go: the persistent job queue. The `jobs` table is a list of rows; each method
-- is a function of the table, with the clock, the new id and the random jitter as arguments.
pub mod Invariant
pub mod Claim
pub mod Rows
pub mod Exclusive
pub mod Backoff
pub mod Dedupe
pub mod Control
pub mod Recovery
pub mod Turn
mod Tests
use Prim.Native.Nat.{min}
use mathlib.Core.Option
use ialbum.Base.{
  ℕ, zero, suc, ◌+◌, ◌-◌, ◌*◌, ◌^◌, Bool, true, false, ◌&&◌, ◌||◌, List, [], ◌∷◌, map, Option, none,
  some, ltb, leb, ◌==◌, if◌then◌else◌, length, take,
}
use ialbum.Text.{Text, text_eq, is_empty, codes}
use ialbum.Time.{Time, Duration, unix, second, millisecond, minute, hour}
use ialbum.Sql.{update, count, select, find, insert, order_by}

pub data State : Type 0 where
  pending running succeeded failed cancelled waiting_auth : State

-- The constants' values, as the table and the API spell them.
unfoldable pub state_text : State → Text
state_text pending = codes "pending"
state_text running = codes "running"
state_text succeeded = codes "succeeded"
state_text failed = codes "failed"
state_text cancelled = codes "cancelled"
state_text waiting_auth = codes "waiting-auth"

-- The members of the JSON payloads that the callers write.
pub record Payload : Type 0 where
  pub album_id : Option Text
  pub media_id : Option Text
  pub generation : Option ℕ

pub record Job : Type 0 where
  pub id : Text
  pub kind : Text
  pub dedupe_key : Text
  pub payload : Payload
  pub state : State
  pub attempts : ℕ
  pub max_attempts : ℕ
  pub next_run_at : ℕ
  pub lease_until : Option ℕ
  pub heartbeat_at : Option ℕ
  pub last_error : List ℕ
  pub created_at : ℕ
  pub updated_at : ℕ

abbrev pub Table : Type 0
Table = List Job

-- An error that a handler returns: whether it is `ErrWaitingAuth`, and the bytes of its message.
pub record Failure : Type 0 where
  pub needs_auth : Bool
  pub message : List ℕ

pub data Error : Type 0 where
  no_rows : Error

pub data Result {ℓ} (A : Type ℓ) : Type ℓ where
  ok : A → Result A
  err : Error → Result A

abbrev pub lease : Duration
lease = 2 * minute

abbrev pub is_pending : State → Bool
is_pending pending = true
is_pending _ = false

abbrev pub is_running : State → Bool
is_running running = true
is_running _ = false

-- state IN ('failed','cancelled','waiting-auth')
abbrev pub is_stopped : State → Bool
is_stopped failed = true
is_stopped cancelled = true
is_stopped waiting_auth = true
is_stopped _ = false

-- state IN ('pending','waiting-auth')
abbrev pub is_waiting : State → Bool
is_waiting pending = true
is_waiting waiting_auth = true
is_waiting _ = false

abbrev pub has_key : Text → Job → Bool
has_key key j = text_eq j.dedupe_key key

abbrev pub has_id : Text → Job → Bool
has_id id j = text_eq j.id id

pub new_job : Text → ℕ → Text → Text → Payload → ℕ → Job
new_job id now kind dedupe payload run_at = record {
  id = id;
  kind = kind;
  dedupe_key = dedupe;
  payload = payload;
  state = pending;
  attempts = 0;
  max_attempts = 8;
  next_run_at = run_at;
  lease_until = none;
  heartbeat_at = none;
  last_error = [];
  created_at = now;
  updated_at = now;
}

-- ON CONFLICT(dedupe_key) DO UPDATE
pub merge : ℕ → Payload → ℕ → Job → Job
merge now payload run_at j = record j {
  payload = payload;
  state = if is_stopped j.state then pending else j.state;
  next_run_at = min j.next_run_at run_at;
  updated_at = now;
}

-- The statement of `Enqueue`, and the id that it reads back.
unfoldable pub enqueue : Text → Time → Text → Text → Payload → Time → Table → Table × Option Text
unfolding new_job merge
enqueue id now kind dedupe payload run_at jobs =
    let stored : Table = elim (find (has_key dedupe) jobs) [
      | none ↦ insert (new_job id (unix now) kind dedupe payload (unix run_at)) jobs
      | some _ ↦ update (has_key dedupe) (merge (unix now) payload (unix run_at)) jobs
    ] in
    (stored, Option.map (λ j. j.id) (find (has_key dedupe) stored))

-- lease_until IS NULL OR lease_until < ?
abbrev pub lapsed : ℕ → Option ℕ → Bool
lapsed now none = true
lapsed now (some until) = ltb until now

abbrev pub is_lapsed : ℕ → Job → Bool
is_lapsed now j = is_running j.state && lapsed now j.lease_until

pub release : ℕ → Job → Job
release now j = record j {
  state = pending;
  lease_until = none;
  heartbeat_at = none;
  updated_at = now;
}

-- The recovery statement of `Start`.
unfoldable pub start : Time → Table → Table
unfolding release
start now = update (is_lapsed (unix now)) (release (unix now))

abbrev pub is_due : ℕ → Job → Bool
is_due now j = is_pending j.state && leb j.next_run_at now

-- ORDER BY next_run_at, created_at
abbrev pub runs_before : Job → Job → Bool
runs_before a b =
    ltb a.next_run_at b.next_run_at
    || a.next_run_at == b.next_run_at && leb a.created_at b.created_at

-- The SELECT of `claim`.
unfoldable pub candidates : Time → Table → List Job
candidates now jobs = take 10 (order_by runs_before (select (is_due (unix now)) jobs))

abbrev pub is_claimable : Text → Job → Bool
is_claimable id j = has_id id j && is_pending j.state

pub take_lease : Time → Job → Job
take_lease now j = record j {
  state = running;
  attempts = j.attempts + 1;
  lease_until = some (unix (now + lease));
  heartbeat_at = some (unix now);
  updated_at = unix now;
}

-- The UPDATE of `claim` for one candidate, with its RowsAffected.
unfoldable pub acquire : Time → Text → Table → Table × ℕ
unfolding take_lease
acquire now id jobs = (update (is_claimable id) (take_lease now) jobs, count (is_claimable id) jobs)

-- Get
unfoldable pub get : Text → Table → Result Job
get id jobs = elim (find (has_id id) jobs) [ none ↦ err no_rows | some j ↦ ok j ]

-- The loop of `claim` over the candidates.
unfoldable pub claim_first : Time → List Job → Table → Table × Result Job
claim_first now [] jobs = (jobs, err no_rows)
claim_first now (c ∷ cs) jobs =
    let (jobs', affected) = acquire now c.id jobs in
    let rest = claim_first now cs jobs' in if affected == 1 then (jobs', get c.id jobs') else rest

-- `claim`, where no other statement comes between its own; Jobs/Exclusive has them as steps.
unfoldable pub claim : Time → Table → Table × Result Job
unfolding candidates claim_first acquire get
claim now jobs = claim_first now (candidates now jobs) jobs

beat : Time → Job → Job
beat now j = record j { heartbeat_at = some (unix now); lease_until = some (unix (now + lease)) }

abbrev pub is_held : Text → Job → Bool
is_held id j = has_id id j && is_running j.state

-- A tick of the goroutine that `run` starts.
unfoldable pub heartbeat : Time → Text → Table → Table
unfolding beat
heartbeat now id = update (is_held id) (beat now)

-- 30 * 2^(attempt-1), at most 21600, in seconds; then up to 15 seconds of jitter in milliseconds.
-- The float product is exact below the cap.
unfoldable pub backoff : ℕ → ℕ → Duration
backoff attempt jitter =
    let seconds = 30 * 2 ^ (attempt - 1) in
    (if ltb 21600 seconds then 21600 else seconds) * second + jitter * millisecond

-- value[:n], by bytes
unfoldable pub truncate : List ℕ → ℕ → List ℕ
truncate value n = if leb (length value) n then value else take n value

pub succeed : ℕ → Job → Job
succeed now j = record j {
  state = succeeded;
  lease_until = none;
  heartbeat_at = none;
  last_error = [];
  updated_at = now;
}

-- The state and the time of the next run after an error, from the claimed job's attempts.
after_failure : Time → ℕ → Job → Failure → State × Time
unfolding backoff
after_failure now jitter job e = if e.needs_auth then (waiting_auth, now + 24 * hour) else (
  if leb job.max_attempts job.attempts then failed else pending,
  now + backoff job.attempts jitter,
)

put_back : ℕ → State × Time → List ℕ → Job → Job
put_back now (state, next) message j = record j {
  state = state;
  next_run_at = unix next;
  lease_until = none;
  heartbeat_at = none;
  last_error = truncate message 2000;
  updated_at = now;
}

unfoldable pub finish : Time → ℕ → Job → Option Failure → Table → Table
unfolding succeed after_failure put_back
finish now jitter job none = update (has_id job.id) (succeed (unix now))
finish now jitter job (some e) =
    update (has_id job.id) (put_back (unix now) (after_failure now jitter job e) e.message)

-- A handler may enqueue jobs; `none` is success.
abbrev pub Handler : Type 0
Handler = Job → Table → Table × Option Failure

-- `run` without its heartbeats, which are steps of their own.
unfoldable pub run : Time → ℕ → (Text → Option Handler) → List ℕ → Job → Table → Table
unfolding finish
run now jitter handlers no_handler job jobs = elim (handlers job.kind) [
  | none ↦ finish now jitter job (some (record { needs_auth = false; message = no_handler })) jobs
  | some handler ↦ let (jobs', result) = handler job jobs in finish now jitter job result jobs'
]

abbrev pub newest_first : Job → Job → Bool
newest_first a b = leb b.created_at a.created_at

-- The guard on `limit`; a limit that is not positive is 0 here.
abbrev pub page_size : ℕ → ℕ
page_size limit = if leb limit 0 || ltb 200 limit then 100 else limit

unfoldable pub list : Text → ℕ → Table → List Job
list state limit jobs = take (page_size limit) (
    order_by newest_first (select (λ j. is_empty state || text_eq (state_text j.state) state) jobs))

pub restart : ℕ → Job → Job
restart now j = record j {
  state = pending;
  attempts = 0;
  next_run_at = now;
  last_error = [];
  updated_at = now;
}

abbrev pub is_retryable : Text → Job → Bool
is_retryable id j = has_id id j && is_stopped j.state

unfoldable pub retry : Time → Text → Table → Table × Result (Unit {0})
unfolding restart
retry now id jobs = (
  update (is_retryable id) (restart (unix now)) jobs,
  if count (is_retryable id) jobs == 0 then err no_rows else ok tt,
)

-- json_extract(payload_json,'$.albumId') = ?
abbrev pub is_of_album : Text → Job → Bool
is_of_album album j = elim (j.payload.album_id) [ none ↦ false | some a ↦ text_eq a album ]

abbrev pub is_cancellable : Text → Job → Bool
is_cancellable album j = is_waiting j.state && is_of_album album j

pub cancel : ℕ → Job → Job
cancel now j = record j { state = cancelled; updated_at = now }

unfoldable pub cancel_album : Time → Text → Table → Table
unfolding cancel
cancel_album now album = update (is_cancellable album) (cancel (unix now))
