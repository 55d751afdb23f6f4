-- ===== src/Jobs/Control.antt =====
-- internal/jobs/queue.go, `Retry`, `CancelAlbum` and `List`: the administrator's calls.
use mathlib.Core.Path.{subst}
use ialbum.Base.{
  not, ap, All-imp, Option-cases, some_inj, sym, ℕ, ◌≤◌, ◌≡◌, refl, ◌∙◌, ◌⊎◌, inl, inr, Bool, true,
  false, ◌||◌, List, All-take, All-Elem_self, [], some, arith, length, length-take_le, All, Elem,
  if◌then◌else◌, Bool-cases,
}
use ialbum.Text.{Text, text_eq, is_empty}
use ialbum.Time.{Time, unix}
use ialbum.Sql.{find, select, order_by}
use ialbum.Sql.Laws.{
  find-update, find-passes, find-none, update_none, count_none, count_zero, select-update_apart,
  All-update-All, All-select,
}
use ialbum.Sql.Keys.{count-by_key}
use ialbum.Sql.Order.{All-order_by, All-select_test}
use ialbum.Jobs.{
  State, running, succeeded, failed, waiting_auth, Job, Table, pending, cancelled, ok, err, no_rows,
  is_stopped, is_waiting, is_of_album, has_id, is_retryable, state_text, newest_first, page_size,
  retry, restart, cancel_album, cancel, list,
}
use ialbum.Jobs.Invariant.{IsWellFormed}

-- The id names a job that failed, was cancelled or waits for authorization.
abbrev pub IsRetried : Text → Table → Type 0
IsRetried id t =
    (j : Job) × (find (has_id id) t ≡ some j)
    × ((j.state ≡ failed) ⊎ ((j.state ≡ cancelled) ⊎ (j.state ≡ waiting_auth)))

stopped_cases :
    (s : State) → is_stopped s ≡ true → (s ≡ failed) ⊎ ((s ≡ cancelled) ⊎ (s ≡ waiting_auth))
stopped_cases pending h = absurd (cc h)
stopped_cases running h = absurd (cc h)
stopped_cases succeeded h = absurd (cc h)
stopped_cases failed h = inl refl
stopped_cases cancelled h = inr (inl refl)
stopped_cases waiting_auth h = inr (inr refl)

running_on :
    (s : State) → is_stopped s ≡ false → ((s ≡ failed) ⊎ ((s ≡ cancelled) ⊎ (s ≡ waiting_auth))) → ⊥
running_on s n (inl q) = cc (n, ap is_stopped q)
running_on s n (inr (inl q)) = cc (n, ap is_stopped q)
running_on s n (inr (inr q)) = cc (n, ap is_stopped q)

-- Nothing to restart: the statement affects no row.
retry_none :
    (now : Time) (id : Text) (t : Table)
    → All (λ k. is_retryable id k ≡ false) t
    → retry now id t ≡ (t, err no_rows)
unfolding retry
retry_none now id t h =
    rw
      (
        retry,
        update_none (is_retryable id) (restart (unix now)) t h,
        count_none (is_retryable id) t h,
      )
      refl

-- `Retry` succeeds exactly on a job that failed, was cancelled or waits for authorization. That job
-- is then pending with no attempt counted and due at once, and every other row is as it was. For any
-- other job, and for an id that no row has, it answers `ErrNoRows` and changes nothing.
pub retry_cases :
    (now : Time) (id : Text) (t : Table)
    → IsWellFormed t
    → ((r : IsRetried id t) × ((retry now id t).1 ≡ ok tt)
        × (find (has_id id) (retry now id t).0
            ≡ some (record r.0 {
              state = pending;
              attempts = 0;
              next_run_at = unix now;
              last_error = [];
              updated_at = unix now;
            }))
        × (select (λ k. not (has_id id k)) (retry now id t).0 ≡ select (λ k. not (has_id id k)) t))
      ⊎ ((IsRetried id t → ⊥) × (retry now id t ≡ (t, err no_rows)))
unfolding retry restart
retry_cases now id t w = elim (Option-cases (find (has_id id) t)) [
  | inl f ↦ inr (
    λ r. cc (f, r.1),
    retry_none now id t (All-imp (λ k h. ground (arith, h)) t (find-none (has_id id) t f)),
  )
  | inr (j, f) ↦
      let n = count-by_key (λ k. k.id) (λ k. is_stopped k.state) id t w.ids f in
      let g = find-update (has_id id) (is_retryable id) (restart (unix now)) (λ x. refl) t in
      let here : has_id id j ≡ true = find-passes (has_id id) t f in
      elim (Bool-cases (is_stopped j.state)) [
        | inl s ↦ inl (
          (j, f, stopped_cases j.state s),
          rw (n, s),
          g ∙ rw (f, here, s),
          select-update_apart _ (is_retryable id) (restart (unix now))
              (λ x h. (ground (arith, h), ground (arith, h))) t,
        )
        | inr s ↦ inr (
          λ r. running_on j.state s (
              subst (λ k. (k.state ≡ failed) ⊎ ((k.state ≡ cancelled) ⊎ (k.state ≡ waiting_auth)))
                (some_inj (sym r.1 ∙ f)) r.2),
          retry_none now id t (count_zero (is_retryable id) t (n ∙ rw s)),
        )
      ]
]

-- After `CancelAlbum` no job of the album waits to run.
pub cancel_album_stops :
    (now : Time) (album : Text) (t : Table)
    → All (λ j. is_of_album album j ≡ true → is_waiting j.state ≡ false) (cancel_album now album t)
unfolding cancel_album cancel
cancel_album_stops now album t =
    All-update-All (λ j. is_of_album album j ≡ true → is_waiting j.state ≡ false) _ _
      (λ j h. ground arith) (λ j h. ground arith) t

-- `CancelAlbum` cancels the row found by an id if it waits and is of the album, and leaves it as it
-- was if not.
cancel_album_keeps :
    (now : Time) (album id : Text) (t : Table) {j : Job}
    → find (has_id id) t ≡ some j
    → find (has_id id) (cancel_album now album t)
      ≡ some (
          if is_waiting j.state
          then (if is_of_album album j
              then record j { state = cancelled; updated_at = unix now }
              else j)
          else j)
unfolding cancel_album cancel
cancel_album_keeps now album id t f =
    find-update (has_id id) _ _ (λ x. refl) t ∙ rw f (ground arith)

page_size_le : (limit : ℕ) → page_size limit ≤ 200
page_size_le limit = ground arith

abbrev matches : Text → Job → Bool
matches state j = is_empty state || text_eq (state_text j.state) state

-- A listing holds at most 200 jobs, and every one is a row in the state asked for, if one is.
list_filters :
    (state : Text) (limit : ℕ) (t : Table)
    → (length (list state limit t) ≤ 200)
      × All
          (λ j. (is_empty state || text_eq (state_text j.state) state) ≡ true)
          (list state limit t)
      × All (λ j. Elem j t) (list state limit t)
unfolding list
list_filters state limit t = (
  omega (arith, length-take_le (page_size limit) sorted, page_size_le limit),
  All-take _ (page_size limit) sorted
      (All-order_by _ newest_first matching (All-select_test (matches state) t)),
  All-take _ (page_size limit) sorted
      (All-order_by _ newest_first matching (All-select _ (matches state) t (All-Elem_self t))),
)
  where
    matching : List Job
    matching = select (matches state) t

    sorted : List Job
    sorted = order_by newest_first matching
