-- ===== src/Storage/Disk/Trees.antt =====
-- Each change of a directory tree gives a directory tree.
use ialbum.Base.{
  true, [], ◌∷◌, ◌++◌, append_assoc, ◌≢◌, inl, inr, none, some, some_inj, ◌≡◌, refl, sym, ap, ◌∙◌,
  arith, Bool-cases, Option-cases,
}
use ialbum.Text.{Text}
use mathlib.Core.Path.{subst}
use ialbum.Storage.Disk.{
  Names, Node, file, folder, link, Disk, names_eq, lookup, erase, insert, look, children, is_nil,
  parent, lstat, done, failed, in_folder, create, remove, OsResult, OsResult-cases, OsResult-cases,
}
use ialbum.Storage.Disk.Laws.{
  IsTree, names_eq_iff, names_ne, look-insert, look-erase, parent-snoc, children_nil, look-of_lstat,
}

pub longer : (a : Names) (n : Text) (ns : Names) → a ++ n ∷ ns ≢ a
longer [] n ns e = cc e
longer (m ∷ a) n ns e = longer a n ns (cc e)

parent-append :
    (a : Names) (n m : Text) (ms : Names) → parent (a ++ n ∷ m ∷ ms) ≡ a ++ n ∷ parent (m ∷ ms)
unfolding parent
parent-append [] n m ms = refl
parent-append (l ∷ []) n m ms = refl
parent-append (l ∷ k ∷ a) n m ms = ap (λ z. l ∷ z) (parent-append (k ∷ a) n m ms)

-- What is above a path is above its directory, or is that directory.
pub above :
    (a : Names) (n : Text) (ns : Names) (d : Disk)
    → IsTree d
    → look (parent (a ++ n ∷ ns)) d ≡ some folder
    → look a d ≡ some folder
above a n [] d t e = rw parent-snoc at e
above a n (m ∷ ms) d t e = t a n (parent (m ∷ ms)) folder (rw parent-append at e)

-- Nothing is below the path.
abbrev pub IsBare : Names → Disk → Type 0
IsBare p d = (n : Text) (ns : Names) (y : Node) → look (p ++ n ∷ ns) d ≢ some y

pub IsBare-leaf :
    (p : Names) (d : Disk) {x : Node} → IsTree d → look p d ≡ some x → x ≢ folder → IsBare p d
IsBare-leaf p d {x = x} t e h n ns y q = h (some_inj (sym e ∙ t p n ns y q))

pub IsBare-absent : (p : Names) (d : Disk) → IsTree d → look p d ≡ none → IsBare p d
IsBare-absent p d t e n ns y q = cc (t p n ns y q, e)

look-lookup :
    (p : Names) (n : Text) (ns : Names) (d : Disk) → look (p ++ n ∷ ns) d ≡ lookup (p ++ n ∷ ns) d
unfolding look
look-lookup [] n ns d = refl
look-lookup (m ∷ p) n ns d = refl

pub IsBare-children : (p : Names) (d : Disk) → IsTree d → is_nil (children p d) ≡ true → IsBare p d
IsBare-children p d t h n [] y q = children_nil p n d h (rw look-lookup at q)
IsBare-children p d t h n (m ∷ ns) y q =
    children_nil p n d {x = folder} h
      (rw look-lookup at (t (p ++ n ∷ []) m ns y (rw append_assoc q)))

module _ (m : Text) (p : Names) (d : Disk) (t : IsTree d) where
  pub IsTree-insert :
      (x : Node)
      → look (parent (m ∷ p)) d ≡ some folder
      → look (m ∷ p) d ≢ some folder
      → IsTree (insert (m ∷ p) x d)
  IsTree-insert x up h a n ns y e = elim (Bool-cases (names_eq (m ∷ p) (a ++ n ∷ ns))) [
    | inl q ↦
        let r : m ∷ p ≡ a ++ n ∷ ns = (names_eq_iff (m ∷ p) (a ++ n ∷ ns)).0 q in
        rw (look-insert, names_ne (m ∷ p) a (λ w. longer a n ns (sym r ∙ w)))
          (above a n ns d t (subst (λ z. look (parent z) d ≡ some folder) r up))
    | inr q ↦
        let k : look a d ≡ some folder = t a n ns y (rw (look-insert, q) at e) in
        ground (arith, look-insert m p a x d, names_eq_iff (m ∷ p) a)
  ]

  pub IsTree-erase : IsBare (m ∷ p) d → IsTree (erase (m ∷ p) d)
  IsTree-erase bare a n ns y e = elim (Bool-cases (names_eq (m ∷ p) (a ++ n ∷ ns))) [
    | inl q ↦ absurd (cc (rw (look-erase, q) at e))
    | inr q ↦
        let k : look (a ++ n ∷ ns) d ≡ some y = rw (look-erase, q) at e in
        rw
          (
            look-erase,
            names_ne (m ∷ p) a
                (λ w. bare n ns y (subst (λ z. look (z ++ n ∷ ns) d ≡ some y) (sym w) k)),
          )
          (t a n ns y k)
  ]

in_folder_sound : (r : OsResult Node) {u : Unit {0}} → in_folder r ≡ done u → r ≡ done folder
in_folder_sound (failed e) h = absurd (cc h)
in_folder_sound (done (file b t)) h = absurd (cc h)
in_folder_sound (done folder) h = refl
in_folder_sound (done (link e)) h = absurd (cc h)

pub folder-of_in_folder :
    (p : Names) (d : Disk) {u : Unit {0}} → in_folder (lstat p d) ≡ done u → look p d ≡ some folder
folder-of_in_folder p d h = look-of_lstat p d (in_folder_sound (lstat p d) h)

-- What a creation does where it succeeds.
pub create_lem :
    (p : Names) (x : Node) (d : Disk) {e : Disk}
    → create p x d ≡ done e
    → (look (parent p) d ≡ some folder) × (look p d ≡ none) × (e ≡ insert p x d)
unfolding create
create_lem p x d h = elim (OsResult-cases (in_folder (lstat (parent p) d))) [
  | inr (f, q) ↦ absurd (cc (rw (create, q) at h))
  | inl (u, q) ↦ elim (Option-cases (look p d)) [
    | inr (y, w) ↦ absurd (cc (rw (create, q, w) at h))
    | inl w ↦ (folder-of_in_folder (parent p) d q, w, cc (rw (create, q, w) at h))
  ]
]

-- What a removal does where it succeeds.
pub remove_lem :
    (p : Names) (d : Disk) {e : Disk}
    → IsTree d
    → remove p d ≡ done e
    → IsBare p d × (e ≡ erase p d)
unfolding remove
remove_lem p d t h = elim (OsResult-cases (lstat p d)) [
  | inr (f, q) ↦ absurd (cc (rw (remove, q) at h))
  | inl (file b w, q) ↦
      (IsBare-leaf p d t (look-of_lstat p d q) (λ z. cc z), cc (rw (remove, q) at h))
  | inl (link f, q) ↦
      (IsBare-leaf p d t (look-of_lstat p d q) (λ z. cc z), cc (rw (remove, q) at h))
  | inl (folder, q) ↦ elim (Bool-cases (is_nil (children p d))) [
    | inl w ↦ (IsBare-children p d t w, cc (rw (remove, q, w) at h))
    | inr w ↦ absurd (cc (rw (remove, q, w) at h))
  ]
]
