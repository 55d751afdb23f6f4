-- ===== src/Media/Scan/Failure.antt =====
-- internal/media/catalog.go, `Scan`: what is left when a scan fails.
use mathlib.Core.Path.{subst}
use ialbum.Base.{
  List, [], ◌∷◌, arith, ℕ, ◌≡◌, refl, Option, none, some, Option-cases, Bool-cases, inl, inr, ◌==◌,
}
use ialbum.Text.{Text}
use ialbum.Time.{Time}
use ialbum.Storage
use ialbum.Media.Types.{Binding, Error, Result, Result-cases, ok, err, Db, Env, Stores}
use ialbum.Media.Index.{View, get_album}
use ialbum.Storage.{Object}
use ialbum.Media.Scan.{
  Faults, Progress, scan_object, scan_objects, apply_scan, begin_scan, scan, scan_with,
  walk_provider,
}

-- The index, the replicas and the queue are as they were.
abbrev pub IsUntouched : Db → Db → Type 0
IsUntouched db d = (d.media ≡ db.media) × (d.replicas ≡ db.replicas) × (d.jobs ≡ db.jobs)

abbrev Safe : Db → Option (Db × Result (Unit {0})) → Type 0
Safe db none = Unit
Safe db (some (d, ok u)) = Unit
Safe db (some (d, err e)) = IsUntouched db d

module _ (env : Env) (now : Time) (view : View) (faults : Faults)
    (never : (k : ℕ) → faults.upsert k ≡ none) where
  scan_object-never :
      (primary : Binding) (o : Object) (p : Progress)
      → (scan_object env now view faults primary o p).1 ≡ none
  unfolding scan_object
  scan_object-never primary o p = ground (arith, never p.discovered)

  scan_objects-never :
      (primary : Binding) (os : List Object) (p : Progress)
      → (scan_objects env now view faults primary os p).1 ≡ none
  unfolding scan_objects
  scan_objects-never primary [] p = refl
  scan_objects-never primary (o ∷ os) p =
      let q = scan_object env now view faults primary o p in
      rw (scan_objects, scan_object-never primary o p) (scan_objects-never primary os q.0)

  apply_scan-never :
      (run : Text) (primary : Binding) (os : List Object) (db : Db)
      → faults.rows ≡ none
      → (apply_scan env now view faults run primary os db).1 ≡ ok tt
  unfolding apply_scan
  apply_scan-never run primary os db r =
      rw
        (
          apply_scan,
          scan_objects-never primary os (record { db = db; seen = []; discovered = 0 }),
          r,
        )
        refl

module _ {W : Type 0} (stores : Stores W) (faults : Faults)
    (never : (k : ℕ) → faults.upsert k ≡ none) (no_rows_fault : faults.rows ≡ none) where
  done : (db : Db) (r : Db × Result (Unit {0})) → r.1 ≡ ok tt → Safe db (some r)
  done db (d, ok u) e = tt
  done db (d, err x) e = absurd (cc e)

  scan-Safe :
      (env : Env) (fuel : ℕ) (now : Time) (album : Text) (generation : ℕ) (s : Db × W)
      → Safe s.0 (scan stores env faults fuel now album generation s)
  unfolding scan scan_with
  scan-Safe env fuel now album generation s = elim (Result-cases (get_album album s.0)) [
    | inr (e, f) ↦ rw (f, scan) (refl, refl, refl)
    | inl (v, f) ↦ elim (Bool-cases (v.generation == generation)) [
      | inr g ↦ rw (f, scan) (rw g tt)
      | inl g ↦ elim (Option-cases v.primary) [
        | inl p ↦ rw (f, scan) (rw g (rw p (refl, refl, refl)))
        | inr (b, p) ↦ elim (Storage.Result-cases (stores.provide b.storage_id s.1)) [
          | inr (e, q) ↦ rw (f, scan) (rw g (rw p (rw q (refl, refl, refl))))
          | inl (u, q) ↦
              elim (Option-cases (walk_provider stores fuel b.storage_id b.root_path s.1)) [
                | inl w ↦ rw (f, scan) (rw g (rw p (rw q (rw w tt))))
                | inr (Storage.err e, w) ↦
                    rw (f, scan) (rw g (rw p (rw q (rw w (refl, refl, refl)))))
                | inr (Storage.ok os, w) ↦
                    rw (f, scan)
                      (rw g (
                        rw p (
                          rw q (
                            rw w (
                              done s.0
                                (apply_scan env now v faults (env.new_id s.0.issued) b os
                                  (begin_scan env now v s.0))
                                (apply_scan-never env now v faults never (env.new_id s.0.issued) b
                                  os (begin_scan env now v s.0) no_rows_fault))))))
              ]
        ]
      ]
    ]
  ]

  -- Where no statement of the database fails: a scan that fails counts no miss, schedules no deletion
  -- and enqueues nothing: the media, the replicas and the jobs are as they were.
  pub scan_failed_keeps :
      (env : Env) (fuel : ℕ) (now : Time) (album : Text) (generation : ℕ) (s : Db × W) {d : Db}
      {e : Error}
      → scan stores env faults fuel now album generation s ≡ some (d, err e)
      → (d.media ≡ s.0.media) × (d.replicas ≡ s.0.replicas) × (d.jobs ≡ s.0.jobs)
  scan_failed_keeps env fuel now album generation s f =
      subst (Safe s.0) f (scan-Safe env fuel now album generation s)
