-- ===== src/Media/Albums/Change/Removal.antt =====
-- internal/media/catalog.go, `RemoveAlbum`: what is left of an album that was removed.
use ialbum.Base.{
  ℕ, ◌≡◌, ◌≢◌, ◌⊎◌, refl, true, false, List, [], ◌∷◌, none, arith, All, ◌==◌, Option-cases,
  Bool-cases, inl, inr,
}
use ialbum.Text.{Text}
use ialbum.Text.Laws.{text_eq_iff}
use ialbum.Time.{Time, unix}
use ialbum.Sql.{find, update, count}
use ialbum.Sql.Laws.{count_pos, count_none, find-none}
use ialbum.Jobs
use ialbum.Jobs.Control.{cancel_album_stops}
use ialbum.Media.Types.{no_rows, ok, err, Album, Db, Env}
use ialbum.Media.Index.{View, get_album, is_album}
use ialbum.Media.Albums.Change.{remove_album, retire}

module _ (env : Env) where
  all_retired :
      (id : Text) (now : ℕ) (albums : List Album)
      → find (is_album id) (update (is_album id) (retire env now) albums) ≡ none
  unfolding find update retire
  all_retired id now [] = refl
  all_retired id now (a ∷ as') = elim (Bool-cases (is_album id a)) [
    | inl t ↦ rw t (ground (arith, t, all_retired id now as'))
    | inr t ↦ rw t (rw t (all_retired id now as'))
  ]

  others :
      (id other : Text) (now : ℕ) (albums : List Album)
      → other ≢ id
      → find (is_album other) (update (is_album id) (retire env now) albums)
        ≡ find (is_album other) albums
  unfolding find update retire
  others id other now [] ne = refl
  others id other now (a ∷ as') ne = elim (Bool-cases (is_album id a)) [
    | inl t ↦
        rw t (
          ground
            (arith, t, others id other now as' ne, text_eq_iff a.id id, text_eq_iff a.id other))
    | inr t ↦ rw t (ground (arith, others id other now as' ne))
  ]

  absent-count :
      (id : Text) (db : Db)
      → (count (is_album id) db.albums == 0) ≡ true
      → get_album id db ≡ err no_rows
  unfolding get_album
  absent-count id db z = elim (Option-cases (find (is_album id) db.albums)) [
    | inl f ↦ rw (f, get_album) refl
    | inr (a, f) ↦ absurd (ground (arith, z, count_pos (is_album id) db.albums f))
  ]

  present-count :
      (id : Text) (db : Db)
      → (count (is_album id) db.albums == 0) ≡ false
      → (v : View) × (get_album id db ≡ ok v)
  unfolding get_album
  present-count id db z = elim (Option-cases (find (is_album id) db.albums)) [
    | inr (a, f) ↦ rw (f, get_album) (_, refl)
    | inl f ↦ absurd (
        ground (arith, z, count_none (is_album id) db.albums (find-none (is_album id) db.albums f)))
  ]

  -- RemoveAlbum refuses with no_rows and changes nothing exactly where the album is not found. Else it
  -- succeeds: then the album is not found any more, none of its jobs waits to run, and every other
  -- album is read as before.
  pub remove_album_cases :
      (now : Time) (id : Text) (db : Db)
      → ((get_album id db ≡ err no_rows) × (remove_album env now id db ≡ (db, err no_rows)))
        ⊎ (((v : View) × (get_album id db ≡ ok v))
            × ((remove_album env now id db).1 ≡ ok tt)
            × (get_album id (remove_album env now id db).0 ≡ err no_rows)
            × All
                (λ j. Jobs.is_of_album id j ≡ true → Jobs.is_waiting j.state ≡ false)
                (remove_album env now id db).0.jobs
            × ((other : Text)
                → other ≢ id
                → get_album other (remove_album env now id db).0 ≡ get_album other db))
  unfolding remove_album get_album
  remove_album_cases now id db = elim (Bool-cases (count (is_album id) db.albums == 0)) [
    | inl t ↦ inl (absent-count id db t, rw (t, remove_album) refl)
    | inr t ↦ inr (
        rw (t, remove_album)
          (
            present-count id db t,
            refl,
            rw (all_retired id (unix now) db.albums, get_album) refl,
            cancel_album_stops now id db.jobs,
            λ other ne. rw (others id other (unix now) db.albums ne, get_album) refl,
          ))
  ]
