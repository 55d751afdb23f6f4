-- ===== src/Jobs/Claim.antt =====
-- internal/jobs/queue.go, `claim`: which job a worker takes.
use ialbum.Base.{
  ◌≤◌, ◌+◌, ◌≡◌, refl, ◌⊎◌, true, not, ◌∙◌, List, [], ◌∷◌, some, arith, All, All-imp, All-Elem_self,
  Elem, take, sym,
}
use mathlib.Core.Path.{subst}
use ialbum.Text.Laws.{text_eq_refl}
use ialbum.Time.{Time, unix}
use ialbum.Sql.{select, find, order_by}
use ialbum.Sql.Laws.{All-select, find-update, select-update_apart}
use ialbum.Sql.Order.{
  All-select_test, All-of_select, All-order_by, All-of_order_by, Sorted, order_by-Sorted,
}
use ialbum.Sql.Keys.{find-by_key, count-by_key}
use ialbum.Jobs.{
  Job, Table, no_rows, Result, ok, err, running, lease, is_pending, is_due, runs_before, has_id,
  is_claimable, take_lease, candidates, acquire, get, claim_first, claim,
}
use ialbum.Jobs.Invariant.{IsWellFormed}

runs_before_total : (a b : Job) → (runs_before a b ≡ true) ⊎ (runs_before b a ≡ true)
runs_before_total a b = ground arith

runs_before_trans :
    (a b c : Job) → runs_before a b ≡ true → runs_before b c ≡ true → runs_before a c ≡ true
runs_before_trans a b c h k = ground arith

-- The row that `claim` leaves behind.
abbrev pub taken : Time → Job → Job
taken now j = record j {
  state = running;
  attempts = j.attempts + 1;
  lease_until = some (unix (now + lease));
  heartbeat_at = some (unix now);
  updated_at = unix now;
}

module _ (now : Time) (t : Table) (w : IsWellFormed t) (c : Job) (m : Elem c t)
    (p : is_pending c.state ≡ true) where
  pub find-candidate : find (has_id c.id) t ≡ some c
  find-candidate = find-by_key (λ j. j.id) t w.ids m

  pub acquire_one : (acquire now c.id t).1 ≡ 1
  unfolding acquire
  acquire_one =
      count-by_key (λ j. j.id) (λ j. is_pending j.state) c.id t w.ids find-candidate ∙ rw p

  pub find-acquire : find (has_id c.id) (acquire now c.id t).0 ≡ some (taken now c)
  unfolding acquire take_lease
  find-acquire =
      find-update (has_id c.id) (is_claimable c.id) (take_lease now) (λ x. refl) t
      ∙ rw (find-candidate, text_eq_refl c.id, p)

  pub get-acquire : get c.id (acquire now c.id t).0 ≡ ok (taken now c)
  unfolding get
  get-acquire = rw (find-acquire, get)

  pub select-acquire :
      select (λ j. not (has_id c.id j)) (acquire now c.id t).0 ≡ select (λ j. not (has_id c.id j)) t
  unfolding acquire take_lease
  select-acquire =
      select-update_apart _ (is_claimable c.id) (take_lease now)
        (λ x h. (ground (arith, h), ground (arith, h))) t

  claim_first-cons :
      (cs : List Job) → claim_first now (c ∷ cs) t ≡ ((acquire now c.id t).0, ok (taken now c))
  unfolding claim_first
  claim_first-cons cs = rw (acquire_one, get-acquire)

-- The job waits, and the second in which it is to run has come.
abbrev pub IsDue : Time → Job → Type 0
IsDue now j = (is_pending j.state ≡ true) × (j.next_run_at ≤ unix now)

-- The job is to run no later than the other, and was made no later if they are to run at once.
abbrev pub IsFirst : Job → Job → Type 0
IsFirst c j =
    (c.next_run_at ≤ j.next_run_at) × (c.next_run_at ≡ j.next_run_at → c.created_at ≤ j.created_at)

-- What a worker finds: nothing due, or the first of the due jobs, which it now holds alone.
pub data Claimed (now : Time) (t : Table) : Table × Result Job → Type 0 where
  idle : All (λ j. IsDue now j → ⊥) t → Claimed now t (t, err no_rows)
  takes :
      (c : Job)
      → Elem c t
      → IsDue now c
      → All (λ j. IsDue now j → IsFirst c j) t
      → {t' : Table} → find (has_id c.id) t' ≡ some (taken now c)
      → select (λ j. not (has_id c.id j)) t' ≡ select (λ j. not (has_id c.id j)) t
      → Claimed now t (t', ok (taken now c))

first : (c j : Job) → runs_before c j ≡ true → IsFirst c j
first c j h = (ground (arith, h), λ q. ground (arith, h, q))

module _ (now : Time) (t : Table) where
  abbrev due : List Job
  due = select (is_due (unix now)) t

  -- A property of the candidates in order, carried back to the due rows of the table.
  back :
      (P : Job → Type 0) (l : List Job)
      → l ≡ order_by runs_before due
      → All P l
      → All (λ j. is_due (unix now) j ≡ true → P j) t
  back P l e h =
      All-of_select P (is_due (unix now)) t (All-of_order_by P runs_before due (subst (All P) e h))

  head_facts :
      (c : Job) (cs : List Job)
      → (c ∷ cs) ≡ order_by runs_before due
      → Elem c t × (is_due (unix now) c ≡ true) × All (λ j. runs_before c j ≡ true) (c ∷ cs)
  head_facts c cs e = (
    (subst (All (λ j. Elem j t)) (sym e) (
        All-order_by (λ j. Elem j t) runs_before due
          (All-select (λ j. Elem j t) (is_due (unix now)) t (All-Elem_self t)))).0,
    (subst (All (λ j. is_due (unix now) j ≡ true)) (sym e) (
        All-order_by (λ j. is_due (unix now) j ≡ true) runs_before due
          (All-select_test (is_due (unix now)) t))).0,
    (
      ground arith,
      (subst (Sorted runs_before) (sym e)
          (order_by-Sorted runs_before runs_before_total runs_before_trans due)).0,
    ),
  )

  claim_cases :
      IsWellFormed t
      → (l : List Job) → l ≡ order_by runs_before due
      → Claimed now t (claim_first now (take 10 l) t)
  unfolding claim_first
  claim_cases w [] e = idle (All-imp (λ j n q. n (ground (arith, q))) t (back (λ j. ⊥) [] e tt))
  claim_cases w (c ∷ cs) e =
      let (m, d, least) = head_facts c cs e in
      rw (claim_first-cons now t w c m (ground arith) (take 9 cs)) (
        takes c m (ground (arith, d), ground (arith, d))
          (All-imp (λ j h q. first c j (h (ground (arith, q)))) t
            (back (λ j. runs_before c j ≡ true) (c ∷ cs) e least))
          (find-acquire now t w c m (ground arith)) (select-acquire now t w c m (ground arith)))

-- `claim` returns `ErrNoRows` and changes nothing exactly where no job is due; else it takes a due
-- job that comes first by next run and creation, marks its row as running with a lease of two
-- minutes and one more attempt, leaves every other row as it was, and returns the row so.
pub claim-Claimed : (now : Time) (t : Table) → IsWellFormed t → Claimed now t (claim now t)
unfolding claim candidates
claim-Claimed now t w = claim_cases now t w _ refl

Claimed-others :
    (now : Time) (t : Table) {r : Table × Result Job} {j : Job}
    → Claimed now t r
    → r.1 ≡ ok j
    → (j.state ≡ running)
      × (select (λ k. not (has_id j.id k)) r.0 ≡ select (λ k. not (has_id j.id k)) t)
Claimed-others now t (idle _) e = absurd (cc e)
Claimed-others now t {j = j} (takes c m d l {t' = t'} f o) e =
    let same : taken now c ≡ j = cc e in
    subst
      (λ k.
        (k.state ≡ running)
        × (select (λ x. not (has_id k.id x)) t' ≡ select (λ x. not (has_id k.id x)) t))
      same (refl, o)

-- A job that is taken runs, and the other rows are as they were.
pub claim-others :
    (now : Time) (t : Table) {t' : Table} {j : Job}
    → IsWellFormed t
    → claim now t ≡ (t', ok j)
    → (j.state ≡ running)
      × (select (λ k. not (has_id j.id k)) t' ≡ select (λ k. not (has_id j.id k)) t)
claim-others now t {t' = t'} {j = j} w h =
    Claimed-others now t {r = (t', ok j)} (subst (Claimed now t) h (claim-Claimed now t w)) refl
