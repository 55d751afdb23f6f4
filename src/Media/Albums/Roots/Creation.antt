-- ===== src/Media/Albums/Roots/Creation.antt =====
-- internal/media/catalog.go, `CreateAlbum`: a new album keeps the roots apart.
use ialbum.Base.{
  suc, ◌≡◌, refl, sym, ◌∙◌, ◌⊎◌, Bool, true, false, ◌&&◌, List, [], ◌∷◌, ◌++◌, arith, All, All-imp,
  if◌then◌else◌, Bool-cases, inl, inr,
}
use mathlib.Core.Path.{subst}
use ialbum.Text.{Text, text_eq, is_empty, trim_space}
use ialbum.Text.Laws.{text_eq_comm}
use ialbum.Time.{Time, unix}
use ialbum.Sql.{select, delete}
use ialbum.Storage
use ialbum.Media.Types.{
  Error, Result, Result-cases, ok, err, Binding, primary_role, backup_role, BackupMode, Db, Env,
  Stores,
}
use ialbum.Media.Names.{paths_overlap}
use ialbum.Media.Index.{enqueue_scan, enqueue}
use ialbum.Media.Albums.{
  CreateInput, Checked, check_input, is_live, ensure_no_overlap, insert_rows, new_album,
  new_binding, set_tags, add_tags, link_tag, insert_tag,
}
use ialbum.Media.Albums.Create.{Marker, create_album, create_checked, store_album, prepare_backup}
use ialbum.Media.Albums.Roots.{
  Apart, IsDisjoint, live, ensure-All, live_before, extend, overlap_comm, snoc-All,
}

-- The id of the new album is none that a binding has, and none is empty.
abbrev pub IsFresh : Text → Binding → Type 0
IsFresh id b = (text_eq id b.album_id ≡ false) × (is_empty b.album_id ≡ false)

-- What was found before the rows of an album are written.
abbrev BackupFree : Env → CreateInput → Text → Text → Db → Type 0
BackupFree env input primary_path backup_path db =
    (is_empty input.backup_storage ≡ true)
    ⊎ ((is_empty input.backup_storage ≡ false)
        × ((text_eq input.backup_storage input.primary_storage
              && paths_overlap env primary_path backup_path)
            ≡ false)
        × (ensure_no_overlap env input.backup_storage backup_path [] db ≡ ok tt))

module _ (env : Env) where
  rows-IsDisjoint :
      (now : Time) (id : Text) (input : CreateInput) (mode : BackupMode)
      (primary_path backup_path : Text) (db : Db)
      → All (IsFresh id) db.bindings
      → ensure_no_overlap env input.primary_storage primary_path [] db ≡ ok tt
      → BackupFree env input primary_path backup_path db
      → IsDisjoint env (live env db)
      → IsDisjoint env (live env (insert_rows env now id input mode primary_path backup_path db))
  unfolding insert_rows new_album new_binding
  rows-IsDisjoint now id input mode pp bp db fresh ep free d = elim free [
    | inl e ↦ rw (e, insert_rows) first
    | inr (e, apart, eb) ↦ rw (e, insert_rows) (both apart eb)
  ]
    where
      ne : All (λ b. is_empty b.album_id ≡ false) db.bindings
      ne = All-imp (λ b h. h.1) db.bindings fresh

      same :
          select (is_live (db.albums ++ new_album env id (unix now) input mode ∷ [])) db.bindings
          ≡ live env db
      same =
          live_before env db.albums (new_album env id (unix now) input mode) db.bindings
            (All-imp (λ b h. h.0) db.bindings fresh)

      first : IsDisjoint env (
          select (is_live (db.albums ++ new_album env id (unix now) input mode ∷ [])) (
            db.bindings
            ++ new_binding env (env.new_id db.issued) id input.primary_storage primary_role pp
              ∷ []))
      first =
          extend env _ db.bindings _ (rw same d)
            (rw same (ensure-All env input.primary_storage pp db ne ep))

      both :
          (text_eq input.backup_storage input.primary_storage && paths_overlap env pp bp) ≡ false
          → ensure_no_overlap env input.backup_storage bp [] db ≡ ok tt
          → IsDisjoint env (
              select (is_live (db.albums ++ new_album env id (unix now) input mode ∷ [])) (
                (db.bindings
                  ++ new_binding env (env.new_id db.issued) id input.primary_storage primary_role pp
                    ∷ [])
                ++ new_binding env
                    (env.new_id (suc db.issued))
                    id
                    input.backup_storage
                    backup_role
                    bp
                  ∷ []))
      both apart eb =
          extend env _ _
            (new_binding env (env.new_id (suc db.issued)) id input.backup_storage backup_role bp)
            first
            (snoc-All env
              (λ x. Apart env x (
                new_binding env (env.new_id (suc db.issued)) id input.backup_storage backup_role
                  bp))
              _ db.bindings
              (new_binding env (env.new_id db.issued) id input.primary_storage primary_role pp)
              (rw same (ensure-All env input.backup_storage bp db ne eb))
              (λ t. ground (
                arith,
                apart,
                t,
                text_eq_comm input.primary_storage input.backup_storage,
                overlap_comm env pp bp,
              )))

  -- The albums and the bindings stay.
  abbrev Kept : Result Db → Db → Type 0
  Kept (ok d) db = (d.albums ≡ db.albums) × (d.bindings ≡ db.bindings)
  Kept (err e) db = Unit

  Kept-from :
      (r : Result Db) (a b : Db)
      → Kept r a
      → a.albums ≡ b.albums
      → a.bindings ≡ b.bindings
      → Kept r b
  Kept-from (ok d) a b k e f = (k.0 ∙ e, k.1 ∙ f)
  Kept-from (err x) a b k e f = tt

  tagged :
      (now : Time) (album name : Text) (db : Db)
      → ((link_tag env album (insert_tag env now name db)).albums ≡ db.albums)
        × ((link_tag env album (insert_tag env now name db)).bindings ≡ db.bindings)
  tagged now album name db = (ground arith, ground arith)

  Kept-unless :
      (b : Bool) (e : Error) (r : Result Db) (db : Db)
      → Kept r db
      → Kept (if b then err e else r) db
  Kept-unless true e r db k = tt
  Kept-unless false e r db k = k

  either :
      (b : Bool) (a d : Db)
      → (d.albums ≡ a.albums) × (d.bindings ≡ a.bindings)
      → ((if b then a else d).albums ≡ a.albums) × ((if b then a else d).bindings ≡ a.bindings)
  either true a d k = (refl, refl)
  either false a d k = k

  add_tags-Kept :
      (now : Time) (album : Text) (tags : List Text) (db : Db)
      → Kept (add_tags env now album tags db) db
  unfolding add_tags
  add_tags-Kept now album [] db = (refl, refl)
  add_tags-Kept now album (tag ∷ tags) db =
      let name = trim_space (env.nfc tag) in
      let base = if is_empty name then db else link_tag env album (insert_tag env now name db) in
      let k =
        either (is_empty name) db (link_tag env album (insert_tag env now name db))
          (tagged now album name db) in
      Kept-unless _ _ (add_tags env now album tags base) db (
        Kept-from (add_tags env now album tags base) base db (add_tags-Kept now album tags base) k.0
          k.1)

  set_tags-Kept :
      (now : Time) (album : Text) (tags : List Text) (db : Db)
      → Kept (set_tags env now album tags db) db
  unfolding set_tags
  set_tags-Kept now album tags db = Kept-unless _ _ (add_tags env now album tags after) db (
      Kept-from (add_tags env now album tags after) after db (add_tags-Kept now album tags after)
        refl refl)
    where
      after : Db
      after = record db { album_tags = delete (λ l. text_eq l.0 album) db.album_tags }

  scan-Kept :
      (now : Time) (id : Text) (db : Db)
      → ((enqueue_scan env now id true db).0.albums ≡ db.albums)
        × ((enqueue_scan env now id true db).0.bindings ≡ db.bindings)
  unfolding enqueue_scan enqueue
  scan-Kept now id db = (ground arith, ground arith)

  moved :
      (a b : Db)
      → a.albums ≡ b.albums
      → a.bindings ≡ b.bindings
      → IsDisjoint env (live env b)
      → IsDisjoint env (live env a)
  moved a b e f d = subst (λ l. IsDisjoint env l) (sym (rw (e, f) refl)) d

module _ {W : Type 0} (stores : Stores W) (env : Env) (marker : Marker) where
  prepared-BackupFree :
      (id : Text) (input : CreateInput) (c : Checked env) (db : Db) (w : W)
      → ((e : Error) × ((prepare_backup stores env marker id input c db w).1 ≡ err e))
        ⊎ BackupFree env input c.primary_path c.backup_path db
  unfolding prepare_backup
  prepared-BackupFree id input c db w = elim (Bool-cases (is_empty input.backup_storage)) [
    | inl e ↦ inr (inl e)
    | inr e ↦
        elim (Bool-cases (
          text_eq input.backup_storage input.primary_storage
          && paths_overlap env c.primary_path c.backup_path)) [
            | inl o ↦ rw (e, prepare_backup) (rw o (inl (_, refl)))
            | inr o ↦
                elim (Result-cases
                  (ensure_no_overlap env input.backup_storage c.backup_path [] db)) [
                    | inr (x, f) ↦ inl (x, rw (e, prepare_backup) (rw o (rw f refl)))
                    | inl (u, f) ↦ inr (inr (e, o, f))
                  ]
          ]
  ]

  store_album-IsDisjoint :
      (now : Time) (id : Text) (input : CreateInput) (c : Checked env) (s : Db × W)
      → IsDisjoint env (live env s.0)
      → IsDisjoint env
          (live env (insert_rows env now id input c.mode c.primary_path c.backup_path s.0))
      → IsDisjoint env (live env (store_album stores env marker now id input c s).0.0)
  unfolding store_album
  store_album-IsDisjoint now id input c s d r =
      elim (Result-cases (set_tags env now id input.tags rows)) [
        | inr (e, f) ↦ rw (f, store_album) d
        | inl (t, f) ↦
            let k : Kept env (ok t) rows =
              subst (λ x. Kept env x rows) f (set_tags-Kept env now id input.tags rows) in
            rw (f, store_album)
              (moved env (enqueue_scan env now id true t).0 rows ((scan-Kept env now id t).0 ∙ k.0)
                ((scan-Kept env now id t).1 ∙ k.1) r)
      ]
    where
      rows : Db
      rows = insert_rows env now id input c.mode c.primary_path c.backup_path s.0

  -- A CreateAlbum that runs alone keeps the roots of active albums apart: where no two lie on one storage one within the
  -- other, none do afterwards, if the id of the album is new and no binding has an empty one.
  create_album-IsDisjoint :
      (now : Time) (input : CreateInput) (s : Db × W)
      → All (IsFresh (env.new_id s.0.issued)) s.0.bindings
      → IsDisjoint env (live env s.0)
      → IsDisjoint env (live env (create_album stores env marker now input s).0.0)
  unfolding create_album create_checked ensure_no_overlap
  create_album-IsDisjoint now input s fresh d = elim (Result-cases (check_input env input)) [
    | inr (e, f) ↦ rw (f, create_album) d
    | inl (c, f) ↦
        elim (Result-cases (ensure_no_overlap env input.primary_storage c.primary_path [] s.0)) [
          | inr (e, g) ↦ rw (f, create_album) (rw g d)
          | inl (u, g) ↦ elim (Storage.Result-cases (stores.provide input.primary_storage s.1)) [
            | inr (e, h) ↦ rw (f, create_album) (rw g (rw h d))
            | inl (v, h) ↦ rw (f, create_album) (rw g (rw h (checked c g)))
          ]
        ]
  ]
    where
      named : Db
      named = record s.0 { issued = suc s.0.issued }

      free :
          (c : Checked env) (w : W) {v : Unit {0}}
          → (prepare_backup stores env marker (env.new_id s.0.issued) input c named w).1 ≡ ok v
          → BackupFree env input c.primary_path c.backup_path named
      free c w h = elim (prepared-BackupFree (env.new_id s.0.issued) input c named w) [
        | inl (e, x) ↦ absurd (cc)
        | inr b ↦ b
      ]

      checked :
          (c : Checked env)
          → ensure_no_overlap env input.primary_storage c.primary_path [] s.0 ≡ ok tt
          → IsDisjoint env (live env (create_checked stores env marker now input c s).0.0)
      checked c g =
          elim (Storage.Result-cases (stores.make_dir input.primary_storage c.primary_path s.1).1) [
            | inr (e, f) ↦ rw (f, create_checked) d
            | inl (u, f) ↦
                let w' = (stores.make_dir input.primary_storage c.primary_path s.1).0 in
                let w'' =
                  (prepare_backup stores env marker (env.new_id s.0.issued) input c named w').0 in
                elim (Result-cases
                  (prepare_backup stores env marker (env.new_id s.0.issued) input c named w').1) [
                    | inr (e, h) ↦ rw (f, create_checked) (rw h d)
                    | inl (v, h) ↦
                        rw (f, create_checked)
                          (rw h (
                            store_album-IsDisjoint now (env.new_id s.0.issued) input c (named, w'')
                              d
                              (rows-IsDisjoint env now (env.new_id s.0.issued) input c.mode
                                c.primary_path c.backup_path named fresh g (free c w' h) d)))
                  ]
          ]
