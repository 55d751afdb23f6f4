-- ===== src/Storage/Local/Files.antt =====
-- What the changes do to the files and links below the root.
use ialbum.Base.{
  ℕ, List, [], ◌∷◌, ◌++◌, append-nil, ◌≢◌, ◌⊎◌, inl, inr, Option, none, some, ◌≡◌, refl, sym, ap,
  ◌∙◌, if◌then◌else◌, Bool-cases, Option-cases,
}
use ialbum.Text.{Text}
use mathlib.Core.Path.{subst}
use ialbum.Storage.Disk.{
  Names, Disk, Node, file, folder, link, OsResult-cases, done, look, lstat, create, insert, remove,
  parent, names_eq, strip,
}
use ialbum.Storage.Disk.Laws.{
  IsTree, look-insert, look-erase, names_eq_iff, names_eq_refl, names_ne, lstat-of_look,
  strip_sound,
}
use ialbum.Storage.Disk.Trees.{longer, IsBare, IsBare-leaf, IsTree-insert, IsTree-erase, create_lem}
use ialbum.Storage.Disk.Rename.{Renamed, moved, strip_self}
use ialbum.Storage.Local.Change.{is_exist, is_not_exist, ensure_below, discard}

-- At most directories are new.
abbrev pub OnlyFolders : Disk → Disk → Type 0
OnlyFolders d e =
    (q : Names) → (look q e ≡ look q d) ⊎ ((look q d ≡ none) × (look q e ≡ some folder))

pub OnlyFolders-trans : (d e f : Disk) → OnlyFolders d e → OnlyFolders e f → OnlyFolders d f
OnlyFolders-trans d e f h k q = elim (h q) [
  | inl x ↦ elim (k q) [ inl y ↦ inl (y ∙ x) | inr (y, z) ↦ inr (sym x ∙ y, z) ]
  | inr (x, y) ↦ elim (k q) [ inl z ↦ inr (x, z ∙ y) | inr (z, w) ↦ inr (x, w) ]
]

-- One file or link is new, or replaced; all else is as it was.
abbrev pub Adds : Names → Node → Disk → Disk → Type 0
Adds p x d e = (q : Names) → look q e ≡ (if names_eq p q then some x else look q d)

pub insert-Adds :
    (p : Names) (x : Node) (d : Disk)
    → IsTree d
    → look (parent p) d ≡ some folder
    → look p d ≢ some folder
    → IsTree (insert p x d) × Adds p x d (insert p x d)
unfolding look
insert-Adds [] x d t up h = absurd (h refl)
insert-Adds (n ∷ p) x d t up h = (IsTree-insert n p d t x up h, λ q. look-insert n p q x d)

pub create-Adds :
    (p : Names) (x : Node) (d : Disk) {e : Disk}
    → IsTree d
    → create p x d ≡ done e
    → IsTree e × Adds p x d e
create-Adds p x d t h =
    let (up, absent, same) = create_lem p x d h in
    rw same (insert-Adds p x d t up (λ w. cc (w, absent)))

create-OnlyFolders :
    (p : Names) (d e : Disk) → look p d ≡ none → Adds p folder d e → OnlyFolders d e
create-OnlyFolders p d e h k q = elim (Bool-cases (names_eq p q)) [
  | inl w ↦ inr (ap (λ z. look z d) (sym ((names_eq_iff p q).0 w)) ∙ h, k q ∙ rw w)
  | inr w ↦ inl (k q ∙ rw w)
]

-- ensureDir keeps the tree, and makes directories only.
pub ensure_below_keeps :
    (current parts : Names) (d : Disk)
    → IsTree d
    → IsTree (ensure_below current parts d).0 × OnlyFolders d (ensure_below current parts d).0
unfolding ensure_below
ensure_below_keeps current [] d t = (t, λ q. inl refl)
ensure_below_keeps current (part ∷ parts) d t =
    elim (OsResult-cases (lstat (current ++ part ∷ []) d)) [
      | inl (file b w, q) ↦ rw (ensure_below, q) (t, λ p. inl refl)
      | inl (link f, q) ↦ rw (ensure_below, q) (t, λ p. inl refl)
      | inl (folder, q) ↦ rw (ensure_below, q) (ensure_below_keeps (current ++ part ∷ []) parts d t)
      | inr (f, q) ↦ elim (Bool-cases (is_not_exist f)) [
        | inr w ↦ rw (ensure_below, q, w) (t, λ p. inl refl)
        | inl w ↦ elim (OsResult-cases (create (current ++ part ∷ []) folder d)) [
          | inl (e, v) ↦
              let (t', adds) = create-Adds (current ++ part ∷ []) folder d t v in
              let rest = ensure_below_keeps (current ++ part ∷ []) parts e t' in
              rw (ensure_below, q, w, v)
                (
                  rest.0,
                  OnlyFolders-trans d e (ensure_below (current ++ part ∷ []) parts e).0
                      (create-OnlyFolders (current ++ part ∷ []) d e
                        (create_lem (current ++ part ∷ []) folder d v).1 adds)
                      rest.1,
                )
          | inr (g, v) ↦ elim (Bool-cases (is_exist g)) [
            | inl u ↦
                rw (ensure_below, q, w, v, u) (ensure_below_keeps (current ++ part ∷ []) parts d t)
            | inr u ↦ rw (ensure_below, q, w, v, u) (t, λ p. inl refl)
          ]
        ]
      ]
    ]

-- The temporary file goes again, and what was before is left.
pub discard_added :
    (p : Names) (b : List ℕ) (w : ℕ) (d e : Disk)
    → IsTree e
    → look p d ≡ none
    → Adds p (file b w) d e
    → IsTree (discard p e) × ((q : Names) → look q (discard p e) ≡ look q d)
unfolding look remove
discard_added [] b w d e t absent adds = absurd (cc absent)
discard_added (n ∷ p) b w d e t absent adds =
    let found : look (n ∷ p) e ≡ some (file b w) = adds (n ∷ p) ∙ rw (names_eq_refl (n ∷ p)) in
    rw (discard, remove, lstat-of_look (n ∷ p) e t found)
      (
        IsTree-erase n p e t (IsBare-leaf (n ∷ p) e t found (λ z. cc z)),
        λ q. elim (Bool-cases (names_eq (n ∷ p) q)) [
          | inl v ↦
              rw (look-erase, v) (sym absent ∙ ap (λ z. look z d) ((names_eq_iff (n ∷ p) q).0 v))
          | inr v ↦ rw (look-erase, v) (adds q ∙ rw v)
        ],
      )

nothing : (o : Option Node) → ((y : Node) → o ≢ some y) → o ≡ none
nothing none h = refl
nothing (some x) h = absurd (h x refl)

-- A rename of the new file to its name.
module _ (p q : Names) (b : List ℕ) (w : ℕ) (d e f : Disk) (absent : look p d ≡ none) (t : IsTree e)
    (adds : Adds p (file b w) d e) where
  found : look p e ≡ some (file b w)
  found = adds p ∙ rw (names_eq_refl p)

  -- Where the file system after the creation has nothing, there was nothing.
  was_absent : (r : Names) → look r e ≡ none → look r d ≡ none
  was_absent r h = elim (Bool-cases (names_eq p r)) [
    | inl v ↦ absurd (cc (rw v at (adds r), h))
    | inr v ↦ cc (rw v at (adds r), h)
  ]

  below_new : (k : Text) (ks : Names) → look (p ++ k ∷ ks) e ≡ none
  below_new k ks = nothing _ (IsBare-leaf p e t found (λ z. cc z) k ks)

  module _ (bare : IsBare q e)
      (to : (r : Names) → look r f ≡ moved p q none (λ z. look z e) r) where
    at_target :
        (r s : Names)
        → strip q r ≡ some s
        → look r f ≡ (if names_eq q r then some (file b w) else look r d)
    at_target r [] h =
        let same : q ≡ r = sym (strip_sound q r h ∙ append-nil q) in
        to r ∙ rw (h, append-nil, (names_eq_iff q r).1 same) found
    at_target r (k ∷ ks) h =
        let at' : r ≡ q ++ k ∷ ks = strip_sound q r h in
        to r
        ∙ rw (h, below_new k ks, names_ne q r (λ v. longer q k ks (sym at' ∙ sym v)))
            (sym (was_absent r (rw at' (nothing _ (bare k ks)))))

    elsewhere :
        (r : Names)
        → strip q r ≡ none
        → look r f ≡ (if names_eq q r then some (file b w) else look r d)
    elsewhere r h =
        rw (names_ne q r (λ v. cc (h, ap (strip q) (sym v), strip_self q)))
          (elim (Option-cases (strip p r)) [
            | inl v ↦
                to r
                ∙ rw (h, v)
                    (adds r ∙ rw (names_ne p r (λ z. cc (v, ap (strip p) (sym z), strip_self p))))
            | inr ([], v) ↦
                to r
                ∙ rw (h, v)
                    (sym absent ∙ ap (λ z. look z d) (sym (strip_sound p r v ∙ append-nil p)))
            | inr (k ∷ ks, v) ↦
                to r ∙ rw (h, v) (sym (was_absent r (rw (strip_sound p r v) (below_new k ks))))
          ])

  pub publish-Renamed : Renamed p q e f → Adds q (file b w) d f
  unfolding Renamed
  publish-Renamed (t', inl (same, stay)) r =
      subst (λ z. look r f ≡ (if names_eq z r then some (file b w) else look r d)) same
        (ap (look r) stay ∙ adds r)
  publish-Renamed (t', inr (bare, to)) r = elim (Option-cases (strip q r)) [
    | inl v ↦ elsewhere bare to r v
    | inr (s, v) ↦ at_target bare to r s v
  ]
