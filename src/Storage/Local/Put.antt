-- ===== src/Storage/Local/Put.antt =====
-- What `Put` does on every branch.
use ialbum.Base.{
  ℕ, suc, Bool, ◌&&◌, List, [], ◌∷◌, ◌++◌, ◌⊎◌, inl, inr, Option, none, some, ◌≡◌, refl, sym, ap,
  ◌∙◌, arith, Bool-cases, Option-cases,
}
use mathlib.Core.Path.{subst}
use ialbum.Storage.{Error, Result, ok, err, conflict, Object}
use ialbum.Storage.Disk.{
  Names, Disk, file, folder, OsResult-cases, look, stat, create, insert, rename, parent, exists,
}
use ialbum.Storage.Disk.Laws.{IsTree, names_eq_refl, names_ne}
use ialbum.Storage.Disk.Trees.{create_lem}
use ialbum.Storage.Disk.Rename.{Renamed, rename_lem}
use ialbum.Storage.Local.{Call, Source, raw, to_slash, stat_object}
use ialbum.Storage.Local.Change.{
  ensure_parents, copy_context, safe_rename, parent_ok, publish, publish_renamed_to, fill, put_at,
  put_made, temp_name,
}
use ialbum.Storage.Local.Files.{
  OnlyFolders, Adds, insert-Adds, create-Adds, ensure_below_keeps, discard_added, publish-Renamed,
}

abbrev pub concat : List (List ℕ) → List ℕ
concat [] = []
concat (x ∷ xs) = x ++ concat xs

-- A copy without an error is whole.
pub copy_context_whole :
    (c : Call) (turn : ℕ) (reads : List (List ℕ)) (ends : Option Error)
    → (copy_context c turn reads ends).1 ≡ none
    → (copy_context c turn reads ends).0 ≡ concat reads
unfolding copy_context
copy_context_whole c turn [] ends h = refl
copy_context_whole c turn (part ∷ reads) ends h = elim (Bool-cases (c.cancelled turn)) [
  | inl e ↦ absurd (cc (rw (copy_context, e) at h))
  | inr e ↦ elim (Option-cases (c.write_fault turn)) [
    | inr (x, f) ↦ absurd (cc (rw (copy_context, e, f) at h))
    | inl f ↦
        rw (copy_context, e, f)
          (ap (λ z. part ++ z)
            (copy_context_whole c (suc turn) reads ends (rw (copy_context, e, f) at h)))
  ]
]

pub safe_rename_cases :
    (p q : Names) (d : Disk)
    → IsTree d
    → ((e : Error) × (safe_rename p q d ≡ (d, err e)))
      ⊎ ((f : Disk) × (safe_rename p q d ≡ (f, ok tt)) × Renamed p q d f)
unfolding safe_rename
safe_rename_cases p q d t = elim (Bool-cases (parent_ok p d && parent_ok q d)) [
  | inr v ↦ inl (conflict, rw (safe_rename, v))
  | inl v ↦ elim (OsResult-cases (rename p q d)) [
    | inl (f, w) ↦ inr (f, rw (safe_rename, v, w), rename_lem p q d t w)
    | inr (e, w) ↦ inl (raw e, rw (safe_rename, v, w))
  ]
]

module _ (c : Call) (rel : Names) where
  -- Nothing has changed, and the call fails.
  abbrev Refused : Disk → Disk × Result Object → Type 0
  Refused d r = ((e : Error) × (r.1 ≡ err e)) × ((q : Names) → look q r.0 ≡ look q d)

  -- The whole file is at its name, and the call returns what `Stat` says of it.
  abbrev pub Stored : List ℕ → Disk → Disk × Result Object → Type 0
  Stored b d r = (r.1 ≡ stat_object c (to_slash rel) r.0) × Adds rel (file b c.now) d r.0

  abbrev Settled : List ℕ → Disk → Disk × Result Object → Type 0
  Settled b d r = IsTree r.0 × (Refused d r ⊎ Stored b d r)

  publish_cases :
      (p : Names) (b : List ℕ) (d e : Disk)
      → IsTree e
      → look p d ≡ none
      → Adds p (file b c.now) d e
      → Settled b d (publish c p rel e)
  unfolding publish publish_renamed_to Renamed
  publish_cases p b d e t absent adds = elim (safe_rename_cases p rel e t) [
    | inl (x, v) ↦
        let (t', same) = discard_added p b c.now d e t absent adds in
        subst (λ z. Settled b d (publish_renamed_to c p rel e z)) (sym v)
          (t', inl ((x, refl), same))
    | inr (f, v, w) ↦
        subst (λ z. Settled b d (publish_renamed_to c p rel e z)) (sym v)
          (w.0, inr (refl, publish-Renamed p rel b c.now d e f absent t adds w))
  ]

  module _ (source : Source) (p : Names) (d e : Disk) (t : IsTree e) (absent : look p d ≡ none)
      (up : look (parent p) e ≡ some folder) (adds : Adds p (file [] c.now) d e) where
    -- The bytes so far are in the temporary file.
    written :
        (b : List ℕ)
        → IsTree (insert p (file b c.now) e) × Adds p (file b c.now) d (insert p (file b c.now) e)
    written b =
        let (t', over) =
          insert-Adds p (file b c.now) e t up (λ w. cc (w, adds p, names_eq_refl p)) in
        (t', λ q. ground (arith, over q, adds q))

    fill_cases : Settled (concat source.reads) d (fill c source p rel e)
    unfolding fill
    fill_cases = elim (Option-cases source.open_error) [
      | inr (x, v) ↦
          let (t', back) = discard_added p [] c.now d e t absent adds in
          rw (fill, v) (t', inl ((x, refl), back))
      | inl v ↦
          let (t', now) = written (copy_context c 0 source.reads source.read_error).0 in
          elim (Option-cases (copy_context c 0 source.reads source.read_error).1) [
            | inr (x, w) ↦
                let (t'', back) =
                  discard_added p (copy_context c 0 source.reads source.read_error).0 c.now d _ t'
                    absent now in
                rw (fill, v, w) (t'', inl ((x, refl), back))
            | inl w ↦
                rw (fill, v, w, ← copy_context_whole c 0 source.reads source.read_error w)
                  (publish_cases p _ d _ t' absent now)
          ]
    ]

  -- Behind the new directories: as before but for them, or the file is stored.
  abbrev pub Outcome : List ℕ → Disk → Disk × Result Object → Type 0
  Outcome b d r =
      IsTree r.0
      × ((((e : Error) × (r.1 ≡ err e)) × OnlyFolders d r.0)
          ⊎ ((made : Disk) × OnlyFolders d made × Stored b made r))

  settle :
      (b : List ℕ) (d made : Disk) (r : Disk × Result Object)
      → OnlyFolders d made
      → Settled b made r
      → Outcome b d r
  settle b d made r k (t, inl (e, same)) =
      (t, inl (e, λ q. elim (k q) [ inl x ↦ inl (same q ∙ x) | inr (x, y) ↦ inr (x, same q ∙ y) ]))
  settle b d made r k (t, inr s) = (t, inr (made, k, s))

  put_made_cases :
      (source : Source) (fail : Bool) (d : Disk) (r : Disk × Result (Unit {0}))
      → IsTree r.0
      → OnlyFolders d r.0
      → Outcome (concat source.reads) d (put_made c rel source fail r)
  unfolding put_made
  put_made_cases source fail d (made, err e) t k = (t, inl ((e, refl), k))
  put_made_cases source fail d (made, ok u) t k =
      elim (Bool-cases (fail && exists (stat rel made))) [
        | inl v ↦ rw (put_made, v) (t, inl ((conflict, refl), k))
        | inr v ↦ elim (OsResult-cases (create (temp_name c.suffix rel) (file [] c.now) made)) [
          | inr (e, w) ↦ rw (put_made, v, w) (t, inl ((raw e, refl), k))
          | inl (e, w) ↦
              let (up, absent, same) = create_lem (temp_name c.suffix rel) (file [] c.now) made w in
              let (t', adds) = create-Adds (temp_name c.suffix rel) (file [] c.now) made t w in
              rw (put_made, v, w)
                (settle (concat source.reads) d made _ k (
                  fill_cases source (temp_name c.suffix rel) made e t' absent
                    (adds (parent (temp_name c.suffix rel))
                      ∙ rw
                          (names_ne (temp_name c.suffix rel) (parent (temp_name c.suffix rel))
                            (λ z. cc (ap (λ y. look y made) z, absent, up)))
                          up)
                    adds))
        ]
      ]

  pub put_at_cases :
      (source : Source) (fail : Bool) (d : Disk)
      → IsTree d
      → Outcome (concat source.reads) d (put_at c rel source fail d)
  unfolding put_at
  put_at_cases source fail d t =
      let (t', k) = ensure_below_keeps [] (parent rel) d t in
      put_made_cases source fail d (ensure_parents rel d) t' k
