-- ===== src/Media/Albums/Roots.antt =====
-- internal/media/catalog.go: the roots of active albums on one storage lie apart.
pub mod Creation
use ialbum.Base.{
  ℕ, zero, suc, ◌+◌, ◌≡◌, ◌≢◌, refl, sym, ap, ◌∙◌, ◌⊎◌, Bool, true, false, not, ◌&&◌, ◌||◌, List,
  [], ◌∷◌, ◌++◌, Option, none, some, arith, All, All-imp, All-append, if◌then◌else◌, ltb,
  Bool-cases, Option-cases, inl, inr,
}
use mathlib.Core.Path.{subst}
use ialbum.Text.{Text, text_eq, is_empty}
use ialbum.Text.Laws.{text_eq_iff, text_eq_refl, text_eq_comm, text_ne}
use ialbum.Time.{Time}
use ialbum.Sql.{find, select, count, insert}
use ialbum.Sql.Order.{All-of_select}
use ialbum.Media.Types.{Error, Result, ok, err, Album, Binding, Role, BackupMode, Db, Env}
use ialbum.Media.Names.{paths_overlap, root_key}
use ialbum.Media.Index.{is_active}
use ialbum.Media.Albums.{
  CreateInput, is_live, on_storage, first_overlap, ensure_no_overlap, insert_rows, new_album,
  new_binding,
}

module _ (env : Env) where
  -- Two bindings on one storage have roots of which neither lies in the other.
  abbrev pub Apart : Binding → Binding → Type 0
  Apart b c =
      text_eq b.storage_id c.storage_id ≡ true → paths_overlap env c.root_path b.root_path ≡ false

  abbrev pub IsDisjoint : List Binding → Type 0
  IsDisjoint [] = Unit
  IsDisjoint (b ∷ bs) = All (Apart b) bs × IsDisjoint bs

  -- The bindings of the active albums.
  abbrev pub live : Db → List Binding
  live db = select (is_live db.albums) db.bindings

  pub IsDisjoint-snoc :
      (bs : List Binding) (c : Binding)
      → IsDisjoint bs
      → All (λ b. Apart b c) bs
      → IsDisjoint (bs ++ c ∷ [])
  IsDisjoint-snoc [] c d h = (tt, tt)
  IsDisjoint-snoc (b ∷ bs) c d h =
      (All-append (Apart b) bs (c ∷ []) d.0 (h.0, tt), IsDisjoint-snoc bs c d.1 h.1)

  no_overlap :
      (root : Text) (bs : List Binding)
      → first_overlap env root bs ≡ none
      → All (λ b. paths_overlap env root b.root_path ≡ false) bs
  unfolding first_overlap
  no_overlap root [] e = tt
  no_overlap root (b ∷ bs) e = elim (Bool-cases (paths_overlap env root b.root_path)) [
    | inl t ↦ absurd (cc (rw t at e))
    | inr t ↦ (t, no_overlap root bs (rw t at e))
  ]

  not_empty : (t : Text) → is_empty t ≡ false → text_eq t [] ≡ false
  unfolding text_eq
  not_empty [] e = absurd (cc e)
  not_empty (c ∷ t) e = refl

  spread :
      (Q : Binding → Type 0) (albums : List Album) (storage : Text) (bs : List Binding)
      → All (λ b. is_empty b.album_id ≡ false) bs
      → All Q (select (on_storage albums storage []) bs)
      → All (λ b. text_eq b.storage_id storage ≡ true → Q b) (select (is_live albums) bs)
  unfolding select
  spread Q albums storage [] ne h = tt
  spread Q albums storage (b ∷ bs) ne h = elim (Bool-cases (on_storage albums storage [] b)) [
    | inl o ↦
        let k : Q b × All Q (select (on_storage albums storage []) bs) = rw o at h in
        elim (Bool-cases (is_live albums b)) [
          | inl l ↦ rw l (λ _. k.0, spread Q albums storage bs ne.1 k.1)
          | inr l ↦ rw l (spread Q albums storage bs ne.1 k.1)
        ]
    | inr o ↦
        let k : All Q (select (on_storage albums storage []) bs) = rw o at h in
        elim (Bool-cases (is_live albums b)) [
          | inl l ↦ rw l (
            λ t. absurd (ground (arith, o, l, t, not_empty b.album_id ne.0)),
            spread Q albums storage bs ne.1 k,
          )
          | inr l ↦ rw l (spread Q albums storage bs ne.1 k)
        ]
  ]

  -- What ensureNoOverlap lets through: the root lies apart from the live bindings of the storage, whose
  -- albums have ids that are not empty.
  pub ensure-All :
      (storage root : Text) (db : Db)
      → All (λ b. is_empty b.album_id ≡ false) db.bindings
      → ensure_no_overlap env storage root [] db ≡ ok tt
      → All
          (λ b. text_eq b.storage_id storage ≡ true → paths_overlap env root b.root_path ≡ false)
          (live db)
  unfolding ensure_no_overlap
  ensure-All storage root db ne e =
      elim (Option-cases
        (first_overlap env root (select (on_storage db.albums storage []) db.bindings))) [
          | inr (b, f) ↦ absurd (cc (rw (f, ensure_no_overlap) at e))
          | inl f ↦
              spread (λ b. paths_overlap env root b.root_path ≡ false) db.albums storage db.bindings
                ne (no_overlap root _ f)
        ]

  select-append :
      (p : Binding → Bool) (xs : List Binding) (c : Binding)
      → select p (xs ++ c ∷ []) ≡ (if p c then select p xs ++ c ∷ [] else select p xs)
  unfolding select
  select-append p [] c = refl
  select-append p (x ∷ xs) c = ground (arith, select-append p xs c)

  count_snoc :
      (p : Album → Bool) (xs : List Album) (a : Album)
      → p a ≡ false
      → count p (xs ++ a ∷ []) ≡ count p xs
  unfolding count
  count_snoc p [] a f = rw f refl
  count_snoc p (x ∷ xs) a f = rw (count_snoc p xs a f) refl

  -- A new album makes no binding live that has another album.
  pub live_before :
      (albums : List Album) (a : Album) (bs : List Binding)
      → All (λ b. text_eq a.id b.album_id ≡ false) bs
      → select (is_live (albums ++ a ∷ [])) bs ≡ select (is_live albums) bs
  unfolding select
  live_before albums a [] h = refl
  live_before albums a (b ∷ bs) h =
      rw
        (count_snoc (λ x. text_eq x.id b.album_id && is_active x.removed_at) albums a
          (ground (arith, h.0)))
        (rw (live_before albums a bs h.1) refl)

  pub extend :
      (p : Binding → Bool) (bs : List Binding) (c : Binding)
      → IsDisjoint (select p bs)
      → All (λ b. Apart b c) (select p bs)
      → IsDisjoint (select p (bs ++ c ∷ []))
  extend p bs c d h = elim (Bool-cases (p c)) [
    | inl t ↦ rw (select-append p bs c) (rw t (IsDisjoint-snoc (select p bs) c d h))
    | inr t ↦ rw (select-append p bs c) (rw t d)
  ]

  pub overlap_comm : (a b : Text) → paths_overlap env a b ≡ paths_overlap env b a
  unfolding paths_overlap
  overlap_comm a b = ground (arith, text_eq_comm (root_key env a) (root_key env b))

  pub snoc-All :
      (Q : Binding → Type 0) (p : Binding → Bool) (bs : List Binding) (c : Binding)
      → All Q (select p bs)
      → Q c
      → All Q (select p (bs ++ c ∷ []))
  snoc-All Q p bs c h q = elim (Bool-cases (p c)) [
    | inl t ↦ rw (select-append p bs c) (rw t (All-append Q (select p bs) (c ∷ []) h (q, tt)))
    | inr t ↦ rw (select-append p bs c) (rw t h)
  ]
