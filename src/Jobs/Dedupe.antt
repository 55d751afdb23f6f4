-- ===== src/Jobs/Dedupe.antt =====
-- internal/jobs/queue.go, `Enqueue`: one row for each dedupe key.
use Prim.Native.Nat.{min}
use ialbum.Base.{◌≡◌, refl, ◌∙◌, true, [], ◌∷◌, ◌++◌, Option, some, none, length, if◌then◌else◌}
use ialbum.Text.{Text}
use ialbum.Text.Laws.{text_eq_refl}
use ialbum.Time.{Time, unix}
use ialbum.Sql.{find, update}
use ialbum.Sql.Laws.{find-update, find-none, find-passes, find-append_none, length-update}
use ialbum.Jobs.{Job, Table, Payload, pending, is_stopped, has_key, enqueue, new_job, merge}

module _ (id : Text) (now : Time) (kind dedupe : Text) (payload : Payload) (run_at : Time)
    (t : Table) where
  abbrev after : Table × Option Text
  after = enqueue id now kind dedupe payload run_at t

  abbrev merged : Job → Job
  merged j = record j {
    payload = payload;
    state = if is_stopped j.state then pending else j.state;
    next_run_at = min j.next_run_at (unix run_at);
    updated_at = unix now;
  }

  -- A key without a row gets one at the end of the table, and the new row's id is returned.
  enqueue_new :
      find (has_key dedupe) t ≡ none
      → (after.0 ≡ t ++ new_job id (unix now) kind dedupe payload (unix run_at) ∷ [])
        × (after.1 ≡ some id)
  unfolding enqueue find
  enqueue_new e = (
    rw (e, enqueue),
    rw (e, enqueue)
        (rw (find-append_none (has_key dedupe) t _ (find-none _ t e)) (rw (found, find))),
  )
    where
      found : has_key dedupe (new_job id (unix now) kind dedupe payload (unix run_at)) ≡ true
      found = text_eq_refl dedupe

  -- A key with a row gets no second one: that row's id is returned, its payload is replaced, its
  -- next run moves forward at most, and it is pending again only if it was stopped.
  pub enqueue_again :
      {j : Job}
      → find (has_key dedupe) t ≡ some j
      → (length after.0 ≡ length t)
        × (after.1 ≡ some j.id)
        × (find (has_key dedupe) after.0 ≡ some (merged j))
  unfolding enqueue merge
  enqueue_again {j = j} e =
      (rw (e, enqueue) (length-update _ _ t), rw (e, enqueue) (rw found), rw (e, enqueue) found)
    where
      found :
          find (has_key dedupe) (update (has_key dedupe) (merge (unix now) payload (unix run_at)) t)
          ≡ some (merged j)
      found =
          find-update (has_key dedupe) _ _ (λ x. refl) t ∙ rw (e, find-passes (has_key dedupe) t e)
