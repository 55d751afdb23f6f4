-- ===== src/Media/Scan/Missing.antt =====
-- internal/media/catalog.go, `Scan`: the count of misses of each media row.
use ialbum.Base.{
  ◌+◌, ◌≡◌, refl, sym, ap, ◌∙◌, Bool, true, false, ◌&&◌, List, [], ◌∷◌, map, some, arith, Distinct,
  if◌then◌else◌, Bool-cases, Option-cases, none, inl, inr, leb,
}
use ialbum.Text.{Text}
use ialbum.Time.{Time, unix}
use ialbum.Sql.{find, update, select}
use ialbum.Sql.Laws.{update_same, Distinct-select, find-Elem, Elem-select, NotIn-select_fails}
use ialbum.Sql.Each.{each, find-each, find-each_other}
use ialbum.Media.Types.{Media, Db, Env}
use ialbum.Media.Index.{View, has_media_id, enqueue}
use ialbum.Media.Mirror.{schedule_mirror_delete, schedule_on, is_mirror}
use ialbum.Media.Scan.{
  has_text, reset_missing, reset_seen, first_miss, mark_missing, miss, miss_unseen, in_album, sweep,
}

media-schedule :
    (env : Env) (now : Time) (v : View) (id : Text) (first : Time) (db : Db)
    → (schedule_mirror_delete env now v id first db).0.media ≡ db.media
unfolding schedule_mirror_delete schedule_on enqueue
media-schedule env now v id first db = ground arith

media_if :
    (b : Bool) (p : Media → Bool) (f : Media → Media) (db : Db)
    → (if b then record db { media = update p f db.media } else db).media
      ≡ update p (λ x. if b then f x else x) db.media
media_if true p f db = refl
media_if false p f db = sym (update_same p db.media)

media_unless :
    (b : Bool) (p : Media → Bool) (f : Media → Media) (db after : Db)
    → after.media ≡ update p f db.media
    → (if b then db else after).media ≡ update p (λ x. if b then x else f x) db.media
media_unless true p f db after e = sym (update_same p db.media)
media_unless false p f db after e = e

module _ (env : Env) (now : Time) (view : View) (seen : List Text) where
  abbrev key : Media → Text
  key m = m.id

  abbrev reset_if : Media → Media → Media
  reset_if m x = if has_text m.normalized_path seen then reset_missing env now view x else x

  abbrev miss_if : Media → Media → Media
  miss_if m x =
      if has_text m.normalized_path seen
      then x
      else mark_missing env now view (m.missing_scans + 1) (unix (first_miss env now view m)) x

  keeps_reset : (m x : Media) → (reset_if m x).id ≡ x.id
  unfolding reset_missing
  keeps_reset m x = ground arith

  keeps_miss : (m x : Media) → (miss_if m x).id ≡ x.id
  unfolding mark_missing
  keeps_miss m x = ground arith

  -- What a sweep makes of a row of the album, column by column.
  abbrev pub swept_row : Media → Media
  swept_row m =
      if has_text m.normalized_path seen
      then record m {
        missing_scans = 0;
        first_missing_at = none;
        delete_suppressed = false;
        updated_at = unix now;
      }
      else record m {
        missing_scans = m.missing_scans + 1;
        first_missing_at = some (elim (m.first_missing_at) [ none ↦ unix now | some t ↦ t ]);
        updated_at = unix now;
      }

  twice : (m : Media) → miss_if m (reset_if m m) ≡ swept_row m
  unfolding reset_missing mark_missing
  twice m = elim (Bool-cases (has_text m.normalized_path seen)) [
    | inl e ↦ rw e refl
    | inr e ↦ elim (Option-cases m.first_missing_at) [
      | inl f ↦ rw e (rw f refl)
      | inr (t, f) ↦ rw e (rw f refl)
    ]
  ]

  media-reset_seen :
      (rows : List Media) (db : Db)
      → (reset_seen env now view seen rows db).media ≡ each key reset_if rows db.media
  unfolding reset_seen each
  media-reset_seen [] db = refl
  media-reset_seen (m ∷ ms) db =
      media-reset_seen ms _
      ∙ ap (each key reset_if ms) (
          media_if (has_text m.normalized_path seen) (has_media_id m.id)
            (reset_missing env now view) db)

  media-miss :
      (m : Media) (db : Db)
      → (miss env now view m db).media
        ≡ update
            (has_media_id m.id)
            (mark_missing env now view (m.missing_scans + 1) (unix (first_miss env now view m)))
            db.media
  unfolding miss
  media-miss m db = elim (Option-cases view.backup) [
    | inl e ↦ rw (e, miss) refl
    | inr (b, e) ↦ elim (Bool-cases (is_mirror view.backup_mode && leb 2 (m.missing_scans + 1))) [
      | inl t ↦ rw (e, miss) (rw t (media-schedule env now view m.id (first_miss env now view m) _))
      | inr t ↦ rw (e, miss) (rw t refl)
    ]
  ]

  media-miss_unseen :
      (rows : List Media) (db : Db)
      → (miss_unseen env now view seen rows db).media ≡ each key miss_if rows db.media
  unfolding miss_unseen each
  media-miss_unseen [] db = refl
  media-miss_unseen (m ∷ ms) db =
      media-miss_unseen ms _
      ∙ ap (each key miss_if ms) (
          media_unless (has_text m.normalized_path seen) (has_media_id m.id) _ db
            (miss env now view m db) (media-miss m db))

  media-sweep :
      (db : Db)
      → (sweep env now view seen db).media
        ≡ each key miss_if
            (select (in_album env now view) db.media)
            (each key reset_if (select (in_album env now view) db.media) db.media)
  unfolding sweep
  media-sweep db =
      media-miss_unseen (select (in_album env now view) db.media) _
      ∙ ap (each key miss_if (select (in_album env now view) db.media))
          (media-reset_seen (select (in_album env now view) db.media) db)

  -- A scan's sweep resets the misses of a row of the album whose path was seen and counts one more
  -- miss, with the second of the first one kept, for a row of the album whose path was not; ids are
  -- distinct.
  pub sweep_row :
      (db : Db) (m : Media)
      → Distinct (map (λ x. x.id) db.media)
      → find (has_media_id m.id) db.media ≡ some m
      → in_album env now view m ≡ true
      → find (has_media_id m.id) (sweep env now view seen db).media ≡ some (swept_row m)
  sweep_row db m d e a =
      let rows = select (in_album env now view) db.media in
      let dr = Distinct-select key (in_album env now view) db.media d in
      let el =
        Elem-select (in_album env now view) db.media (find-Elem (has_media_id m.id) db.media e) a in
      ap (find (has_media_id m.id)) (media-sweep db)
      ∙ find-each key miss_if keeps_miss rows _ dr el (keeps_reset m m)
          (find-each key reset_if keeps_reset rows db.media dr el refl e)
      ∙ ap some (twice m)

  -- The rows of other albums stay as they are.
  pub sweep_others :
      (db : Db) (m : Media)
      → Distinct (map (λ x. x.id) db.media)
      → find (has_media_id m.id) db.media ≡ some m
      → in_album env now view m ≡ false
      → find (has_media_id m.id) (sweep env now view seen db).media ≡ some m
  sweep_others db m d e a =
      let rows = select (in_album env now view) db.media in
      let n =
        NotIn-select_fails key (in_album env now view) db.media d
          (find-Elem (has_media_id m.id) db.media e) a in
      ap (find (has_media_id m.id)) (media-sweep db)
      ∙ find-each_other key miss_if keeps_miss m.id rows _ refl n
          (find-each_other key reset_if keeps_reset m.id rows db.media refl n e)
