-- ===== src/Media/Work/Ends.antt =====
-- How the turn of a worker that takes a backup job ends.
use mathlib.Core.Path.{subst}
use ialbum.Base.{
  arith, not, ℕ, true, false, Option, none, some, ◌≢◌, inl, inr, ◌⊎◌, ◌≡◌, refl, ap, ◌∙◌,
  Option-cases,
}
use ialbum.Text.{codes, text_eq}
use ialbum.Time.{Time, unix}
use ialbum.Sql.{find, select}
use ialbum.Jobs
use ialbum.Jobs.{running, Payload, Job, succeeded, Failure, Table, has_id, claim, finish, succeed}
use ialbum.Jobs.Invariant.{IsWellFormed}
use ialbum.Jobs.Claim.{claim-others}
use ialbum.Jobs.Turn.{claim-find, find-succeed, find-put_back, select-finish}
use ialbum.Media.Types.{
  Error, no_rows, unsupported_media, waiting_auth, nil_dereference, size_changed, version_changed,
  no_free_name, invalid, storage_error, err, Media, Binding, Db, Env, Stores,
}
use ialbum.Storage.{Object}
use ialbum.Media.Mirror.{is_replica}
use ialbum.Media.Transfer.{backup, upsert_replica}
use ialbum.Media.Transfer.Backups.{Due, Copied, backup_cases}
use ialbum.Media.Work.{
  Outside, text_or, backup_job, handle, work, end_job, ending_of, returned, panicked,
}

abbrev pub with_jobs : {W : Type 0} → Table → Db × W → Db × W
with_jobs jobs s = (record s.0 { jobs = jobs }, s.1)

jobs-upsert_replica :
    (env : Env) (now : Time) (target : Binding) (m : Media) (stored : Object) (db : Db)
    → (upsert_replica env now target m stored db).jobs ≡ db.jobs
unfolding upsert_replica
jobs-upsert_replica env now target m stored db =
    elim (Option-cases (find (is_replica m.id target.storage_id) db.replicas)) [
      | inl f ↦ rw (f, upsert_replica) refl
      | inr (r, f) ↦ rw (f, upsert_replica) refl
    ]

module _ {W : Type 0} (stores : Stores W) (env : Env) (outside : Outside W) where
  -- From the table with the claimed job on: the other jobs are as they were. The row of the job says
  -- that it succeeded: there was nothing to do and only the row has changed, or the copy is made. Or it
  -- says otherwise, and nothing but the row has changed in the database.
  pub Ended : Time → Time → Job → Db × W → Db × W → Type 0
  Ended handled ended job s s' =
      (select (λ k. not (has_id job.id k)) s'.0.jobs ≡ select (λ k. not (has_id job.id k)) s.0.jobs)
      × (((find (has_id job.id) s'.0.jobs ≡ some (succeed (unix ended) job))
            × ((with_jobs s.0.jobs s' ≡ s)
                ⊎ ((d : Due stores env (text_or job.payload.album_id) (text_or job.payload.media_id)
                      s)
                    × Copied stores env handled d.album.primary d.target d.media s
                        (with_jobs s.0.jobs s'))))
          ⊎ ((k : Job) × (find (has_id job.id) s'.0.jobs ≡ some k)
              × (k.state ≢ succeeded)
              × (record s'.0 { jobs = s.0.jobs } ≡ s.0)))

  -- `finish` writes the row of the job alone.
  closed : Time → ℕ → Job → Option Failure → Db × W → Db × W
  closed ended jitter job failure s = with_jobs (finish ended jitter job failure s.0.jobs) s

  others :
      (ended : Time) (jitter : ℕ) (job : Job) (failure : Option Failure) (s t : Db × W)
      → t.0.jobs ≡ s.0.jobs
      → select (λ k. not (has_id job.id k)) (closed ended jitter job failure t).0.jobs
        ≡ select (λ k. not (has_id job.id k)) s.0.jobs
  unfolding closed
  others ended jitter job failure s t same =
      select-finish ended jitter job failure t.0.jobs
      ∙ ap (select (λ k. not (has_id job.id k))) same

  failed-Ended :
      (handled ended : Time) (jitter : ℕ) (job : Job) (e : Failure) (s t : Db × W)
      → find (has_id job.id) s.0.jobs ≡ some job
      → t.0 ≡ s.0
      → Ended handled ended job s (closed ended jitter job (some e) t)
  unfolding Ended closed
  failed-Ended handled ended jitter job e s t f k =
      let (row, found, state) =
        find-put_back ended jitter t.0.jobs job e (ap (λ d. find (has_id job.id) d.jobs) k ∙ f) in
      (
        others ended jitter job (some e) s t (ap (λ d. d.jobs) k),
        inr (row, found, state, ap {B = Db} (λ d. record d { jobs = s.0.jobs }) k),
      )

  panicked-Ended :
      (handled ended : Time) (job : Job) (s t : Db × W)
      → find (has_id job.id) s.0.jobs ≡ some job
      → job.state ≡ running
      → t.0 ≡ s.0
      → Ended handled ended job s t
  unfolding Ended
  panicked-Ended handled ended job s t f runs k = (
    ap (λ d. select (λ x. not (has_id job.id x)) d.jobs) k,
    inr (
      job,
      ap (λ d. find (has_id job.id) d.jobs) k ∙ f,
      (λ q. ground (arith, q, runs)),
      ap {B = Db} (λ d. record d { jobs = s.0.jobs }) k,
    ),
  )

  ending_cases :
      (e : Error)
      → (ending_of stores env outside (err e) ≡ panicked)
        ⊎ ((failure : Failure) × (ending_of stores env outside (err e) ≡ returned (some failure)))
  ending_cases no_rows = inr (_, refl)
  ending_cases unsupported_media = inr (_, refl)
  ending_cases waiting_auth = inr (_, refl)
  ending_cases nil_dereference = inl refl
  ending_cases size_changed = inr (_, refl)
  ending_cases version_changed = inr (_, refl)
  ending_cases no_free_name = inr (_, refl)
  ending_cases (invalid t) = inr (_, refl)
  ending_cases (storage_error e) = inr (_, refl)

  Copied-Ended :
      (handled ended : Time) (jitter : ℕ) (job : Job) (s t : Db × W)
      (d : Due stores env (text_or job.payload.album_id) (text_or job.payload.media_id) s)
      → find (has_id job.id) s.0.jobs ≡ some job
      → Copied stores env handled d.album.primary d.target d.media s t
      → Ended handled ended job s (closed ended jitter job none t)
  unfolding Ended closed
  Copied-Ended handled ended jitter job s t d f c =
      let same : t.0.jobs ≡ s.0.jobs =
        ap (λ db. db.jobs) c.row ∙ jobs-upsert_replica env handled d.target d.media c.stored s.0 in
      (
        others ended jitter job none s t same,
        inl (
          find-succeed ended jitter t.0.jobs job (ap (find (has_id job.id)) same ∙ f),
          inr (
            d,
            subst
                (λ js.
                  Copied stores env handled d.album.primary d.target d.media s (with_jobs js t))
                same c,
          ),
        ),
      )

  end_job-Ended :
      (handled ended : Time) (jitter : ℕ) (job : Job) (s : Db × W)
      → find (has_id job.id) s.0.jobs ≡ some job
      → job.state ≡ running
      → (s' : Db × W) × (end_job stores env outside ended jitter job
            (some (backup_job stores env outside handled job.payload s))
          ≡ some s')
        × Ended handled ended job s s'
  unfolding Ended closed backup_job
  end_job-Ended handled ended jitter job s f runs =
      let out =
        backup stores env handled (text_or job.payload.album_id) (text_or job.payload.media_id) s in
      elim (backup_cases stores env handled (text_or job.payload.album_id)
        (text_or job.payload.media_id) s) [
          | inl idle ↦ (
            closed ended jitter job none s,
            rw (idle handled) refl,
            (
              others ended jitter job none s s refl,
              inl (find-succeed ended jitter s.0.jobs job f, inl refl),
            ),
          )
          | inr (inl (e, h, k)) ↦ elim (ending_cases e) [
            | inl p ↦ (out.0, rw h (rw p refl), panicked-Ended handled ended job s out.0 f runs k)
            | inr (failure, p) ↦ (
              closed ended jitter job (some failure) out.0,
              rw h (rw p refl),
              failed-Ended handled ended jitter job failure s out.0 f k,
            )
          ]
          | inr (inr (d, h, c)) ↦ (
            closed ended jitter job none out.0,
            rw h refl,
            Copied-Ended handled ended jitter job s out.0 d f c,
          )
        ]

  handle-backup :
      (handled : Time) (job : Job) (s : Db × W)
      → job.kind ≡ codes "backup"
      → handle stores env outside handled job s
        ≡ some (backup_job stores env outside handled job.payload s)
  unfolding handle text_eq
  handle-backup handled job s b =
      let other : text_eq job.kind (codes "scan") ≡ false = ap (λ k. text_eq k (codes "scan")) b in
      let this : text_eq job.kind (codes "backup") ≡ true =
        ap (λ k. text_eq k (codes "backup")) b in
      rw (handle, other, this) refl

  work-taken :
      (claimed handled ended : Time) (jitter : ℕ) (s : Db × W) {jobs : Table} {job : Job}
      → claim claimed s.0.jobs ≡ (jobs, Jobs.ok job)
      → work stores env outside claimed handled ended jitter s
        ≡ end_job stores env outside ended jitter job
            (handle stores env outside handled job (with_jobs jobs s))
  unfolding work
  work-taken claimed handled ended jitter s {job = job} h =
      rw (work, h)
        (ap
          (λ t.
            end_job stores env outside ended jitter job
              (handle stores env outside handled job (with_jobs t s)))
          (ap (λ p. p.0) h))

  -- On a well-formed table of jobs, the turn of a worker that takes a backup job ends. Every other row
  -- of the jobs is as it was before the claim. The row of the job tells how the turn ended: it has
  -- succeeded, and then either there was nothing to do and nothing but the row has changed, or the
  -- media is copied as `Copied` says; or it has not, since the backup failed or the process died of a
  -- panic, and in the database nothing but the row has changed.
  pub work-backup :
      (claimed handled ended : Time) (jitter : ℕ) (s : Db × W) {jobs : Table} {job : Job}
      → IsWellFormed s.0.jobs
      → claim claimed s.0.jobs ≡ (jobs, Jobs.ok job)
      → job.kind ≡ codes "backup"
      → (s' : Db × W) × (work stores env outside claimed handled ended jitter s ≡ some s')
        × (select (λ k. not (has_id job.id k)) s'.0.jobs
            ≡ select (λ k. not (has_id job.id k)) s.0.jobs)
        × Ended handled ended job (with_jobs jobs s) s'
  unfolding Ended
  work-backup claimed handled ended jitter s {jobs = jobs} {job = job} w h b =
      let (runs, apart) = claim-others claimed s.0.jobs w h in
      let (s', ends, how) =
        end_job-Ended handled ended jitter job (with_jobs jobs s) (claim-find claimed s.0.jobs h)
          runs in
      (
        s',
        work-taken claimed handled ended jitter s h
            ∙ ap (end_job stores env outside ended jitter job)
                (handle-backup handled job (with_jobs jobs s) b)
            ∙ ends,
        how.0 ∙ apart,
        how,
      )
