-- ===== src/Jobs/Invariant.antt =====
-- internal/jobs/queue.go: what holds of the jobs table between two statements.
use ialbum.Base.{
  ℕ, ◌≤◌, ◌<◌, ◌≡◌, refl, Bool, true, false, List, [], ◌∷◌, map, map-append, Option, none, some,
  is_some, length, length-take_le, All, All-append, NotIn, Distinct, Distinct-snoc, arith,
  Option-cases, inl, inr,
}
use ialbum.Text.{Text}
use ialbum.Text.Laws.{text_eq_iff}
use ialbum.Time.{Time}
use ialbum.Sql.{update, find}
use ialbum.Sql.Laws.{All-update, map-update, find-none}
use ialbum.Jobs.{
  Payload, Job, Table, Failure, is_running, has_key, enqueue, start, acquire, heartbeat, truncate,
  finish, retry, cancel_album,
}

-- A row holds a lease and a heartbeat exactly while it runs, has been attempted if it runs, and
-- keeps a bounded error message.
pub record IsSound (j : Job) : Type 0 where
  pub leased : is_some j.lease_until ≡ is_running j.state
  pub beating : is_some j.heartbeat_at ≡ is_running j.state
  pub attempted : is_running j.state ≡ true → 0 < j.attempts
  pub error_bounded : length j.last_error ≤ 2000

pub record IsWellFormed (t : Table) : Type 0 where
  pub ids : Distinct (map (λ j. j.id) t)
  pub keys : Distinct (map (λ j. j.dedupe_key) t)
  pub rows : All IsSound t

-- The statements of the queue, one for each that a method runs.
pub data Op : Type 0 where
  enqueues : Text → Time → Text → Text → Payload → Time → Op
  starts : Time → Op
  acquires : Time → Text → Op
  heartbeats : Time → Text → Op
  finishes : Time → ℕ → Job → Option Failure → Op
  retries : Time → Text → Op
  cancels : Time → Text → Op

unfoldable pub apply : Op → Table → Table
apply (enqueues id now kind dedupe payload run_at) t =
    (enqueue id now kind dedupe payload run_at t).0
apply (starts now) t = start now t
apply (acquires now id) t = (acquire now id t).0
apply (heartbeats now id) t = heartbeat now id t
apply (finishes now jitter job result) t = finish now jitter job result t
apply (retries now id) t = (retry now id t).0
apply (cancels now album) t = cancel_album now album t

-- A new id is one that no row has.
abbrev pub IsFresh : Op → Table → Type 0
IsFresh (enqueues id now kind dedupe payload run_at) t = NotIn id (map (λ j. j.id) t)
IsFresh _ t = Unit

update-IsWellFormed :
    (p : Job → Bool) (f : Job → Job)
    → ((j : Job) → (f j).id ≡ j.id)
    → ((j : Job) → (f j).dedupe_key ≡ j.dedupe_key)
    → ((j : Job) → p j ≡ true → IsSound j → IsSound (f j))
    → (t : Table) → IsWellFormed t
    → IsWellFormed (update p f t)
update-IsWellFormed p f same_id same_key keep t w = record {
  ids = rw (map-update (λ j. j.id) p f same_id t) w.ids;
  keys = rw (map-update (λ j. j.dedupe_key) p f same_key t) w.keys;
  rows = All-update IsSound p f keep t w.rows;
}

length-truncate_le : (v : List ℕ) (n : ℕ) → length (truncate v n) ≤ n
unfolding truncate
length-truncate_le v n = ground (arith, length-take_le n v)

no_key :
    (key : Text) (t : Table)
    → All (λ j. has_key key j ≡ false) t
    → NotIn key (map (λ j. j.dedupe_key) t)
no_key key [] h = tt
no_key key (j ∷ t) h = (ground (arith, h.0, text_eq_iff j.dedupe_key key), no_key key t h.1)

enqueue-IsWellFormed :
    (id : Text) (now : Time) (kind dedupe : Text) (payload : Payload) (run_at : Time) (t : Table)
    → NotIn id (map (λ j. j.id) t)
    → IsWellFormed t
    → IsWellFormed (enqueue id now kind dedupe payload run_at t).0
unfolding enqueue
enqueue-IsWellFormed id now kind dedupe payload run_at t fresh w =
    elim (Option-cases (find (has_key dedupe) t)) [
      | inl e ↦
          rw (e, enqueue)
            (record {
              ids = rw map-append (Distinct-snoc _ id fresh w.ids);
              keys =
                  rw map-append (Distinct-snoc _ dedupe (no_key dedupe t (find-none _ t e)) w.keys);
              rows = All-append IsSound t _ w.rows (ground arith);
            })
      | inr (j, e) ↦
          rw (e, enqueue)
            (update-IsWellFormed (has_key dedupe) _ (λ x. refl) (λ x. refl) (λ x _ s. ground arith)
              t w)
    ]

-- Every statement of the queue keeps the table well formed: ids and dedupe keys stay distinct, and
-- every row has a lease exactly while it runs. A new row's id must be new.
pub apply-IsWellFormed :
    (op : Op) (t : Table) → IsFresh op t → IsWellFormed t → IsWellFormed (apply op t)
unfolding apply start acquire heartbeat finish retry cancel_album
apply-IsWellFormed (enqueues id now kind dedupe payload run_at) t fresh w =
    enqueue-IsWellFormed id now kind dedupe payload run_at t fresh w
apply-IsWellFormed (starts now) t fresh w =
    update-IsWellFormed _ _ (λ x. refl) (λ x. refl) (λ x m s. ground arith) t w
apply-IsWellFormed (acquires now id) t fresh w =
    update-IsWellFormed _ _ (λ x. refl) (λ x. refl) (λ x m s. ground arith) t w
apply-IsWellFormed (heartbeats now id) t fresh w =
    update-IsWellFormed _ _ (λ x. refl) (λ x. refl) (λ x m s. ground arith) t w
apply-IsWellFormed (finishes now jitter job none) t fresh w =
    update-IsWellFormed _ _ (λ x. refl) (λ x. refl) (λ x m s. ground arith) t w
apply-IsWellFormed (finishes now jitter job (some e)) t fresh w =
    update-IsWellFormed _ _ (λ x. refl) (λ x. refl)
      (λ x m s. ground (arith, length-truncate_le e.message 2000)) t w
apply-IsWellFormed (retries now id) t fresh w =
    update-IsWellFormed _ _ (λ x. refl) (λ x. refl) (λ x m s. ground arith) t w
apply-IsWellFormed (cancels now album) t fresh w =
    update-IsWellFormed _ _ (λ x. refl) (λ x. refl) (λ x m s. ground arith) t w
