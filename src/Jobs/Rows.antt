-- ===== src/Jobs/Rows.antt =====
-- internal/jobs/queue.go: what each statement leaves of the row of a job that a worker holds.

use ialbum.Base.{
  if◌then◌else◌, ℕ, ◌≡◌, refl, ap, ◌∙◌, Bool, true, false, Option, some, none, arith, Option-cases,
  Bool-cases, inl, inr,
}
use ialbum.Text.{Text, text_eq}
use ialbum.Text.Laws.{text_eq_iff}
use ialbum.Time.{Time}
use ialbum.Sql.{update, find}
use ialbum.Sql.Laws.{find-update, find-append, find-passes}
use ialbum.Jobs.{
  Job, Table, Payload, Failure, is_running, has_id, has_key, enqueue, acquire, finish,
}

-- The table's row of a held job runs, and counts the attempt that the worker makes.
pub record Row (t : Table) (j : Job) : Type 0 where
  pub row : Job
  pub found : find (has_id j.id) t ≡ some row
  pub runs : is_running row.state ≡ true
  pub same_attempts : row.attempts ≡ j.attempts

-- A statement that leaves running rows running leaves the rows of held jobs as they should be.
pub Row-update :
    (p : Job → Bool) (f : Job → Job)
    → ((x : Job) → (f x).id ≡ x.id)
    → (t : Table) (j : Job)
    → ((x : Job)
        → p x ≡ true
        → x.id ≡ j.id
        → is_running x.state ≡ true
        → (is_running (f x).state ≡ true) × ((f x).attempts ≡ x.attempts))
    → Row t j
    → Row (update p f t) j
Row-update p f same t j keep r = elim (Bool-cases (p r.row)) [
  | inl e ↦
      let k : (is_running (f r.row).state ≡ true) × ((f r.row).attempts ≡ r.row.attempts) =
        keep r.row e id_eq r.runs in
      record {
        row = f r.row;
        found = at_row ∙ rw e;
        runs = k.0;
        same_attempts = k.1 ∙ r.same_attempts;
      }
  | inr e ↦ record {
    row = r.row;
    found = at_row ∙ rw e;
    runs = r.runs;
    same_attempts = r.same_attempts;
  }
]
  where
    id_eq : r.row.id ≡ j.id
    id_eq = (text_eq_iff r.row.id j.id).0 (find-passes (has_id j.id) t r.found)

    at_row : find (has_id j.id) (update p f t) ≡ some (if p r.row then f r.row else r.row)
    at_row = find-update (has_id j.id) p f (λ x. ap (λ i. text_eq i j.id) (same x)) t ∙ rw (r.found)

pub Row-enqueue :
    (id : Text) (now : Time) (kind dedupe : Text) (payload : Payload) (run_at : Time) (t : Table)
    (j : Job)
    → Row t j
    → Row (enqueue id now kind dedupe payload run_at t).0 j
unfolding enqueue
Row-enqueue id now kind dedupe payload run_at t j r =
    elim (Option-cases (find (has_key dedupe) t)) [
      | inl e ↦
          rw (e, enqueue)
            (record {
              row = r.row;
              found = find-append (has_id j.id) t _ r.found;
              runs = r.runs;
              same_attempts = r.same_attempts;
            })
      | inr (k, e) ↦
          rw (e, enqueue)
            (Row-update (has_key dedupe) _ (λ x. refl) t j (λ x m i h. ground arith) r)
    ]

pub Row-acquire :
    (now : Time) (id : Text) (t : Table) (j : Job) → Row t j → Row (acquire now id t).0 j
unfolding acquire
Row-acquire now id t j r = Row-update _ _ (λ x. refl) t j (λ x m i h. ground arith) r

pub Row-finish :
    (now : Time) (jitter : ℕ) (k : Job) (result : Option Failure) (t : Table) (j : Job)
    → has_id k.id j ≡ false
    → Row t j
    → Row (finish now jitter k result t) j
unfolding finish
Row-finish now jitter k none t j other r =
    Row-update _ _ (λ x. refl) t j (λ x m i h. absurd (cc (m, other, i))) r
Row-finish now jitter k (some e) t j other r =
    Row-update _ _ (λ x. refl) t j (λ x m i h. absurd (cc (m, other, i))) r
