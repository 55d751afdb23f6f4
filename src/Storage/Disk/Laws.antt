-- ===== src/Storage/Disk/Laws.antt =====
-- Laws of paths and of the entries of a directory tree.
use ialbum.Base.{
  true, false, [], ◌∷◌, ◌++◌, append-nil, append_assoc, ◌≢◌, ◌↔◌, inl, inr, none, some, some_inj,
  ◌≡◌, refl, ap, arith, if◌then◌else◌, Bool-cases, Option-cases,
}
use ialbum.Text.{Text, text_eq}
use ialbum.Text.Laws.{text_eq_iff, text_eq_refl}
use ialbum.Storage.Disk.{
  Names, Node, file, folder, link, Disk, names_eq, lookup, erase, insert, strip, look, done,
  lstat_below, lstat, children, is_nil, parent,
}

names_eq_sound : (p q : Names) → names_eq p q ≡ true → p ≡ q
unfolding names_eq
names_eq_sound [] [] h = refl
names_eq_sound [] (n ∷ q) h = cc
names_eq_sound (m ∷ p) [] h = cc
names_eq_sound (m ∷ p) (n ∷ q) h = ground (arith, names_eq_sound p q, text_eq_iff m n)

pub names_eq_refl : (p : Names) → names_eq p p ≡ true
unfolding names_eq
names_eq_refl [] = refl
names_eq_refl (n ∷ p) = rw (text_eq_refl n) (names_eq_refl p)

pub names_eq_iff : (p q : Names) → (names_eq p q ≡ true) ↔ (p ≡ q)
names_eq_iff p q = (names_eq_sound p q, λ e. rw e (names_eq_refl q))

pub names_ne : (p q : Names) → p ≢ q → names_eq p q ≡ false
names_ne p q h = ground (arith, names_eq_iff p q)

pub lookup-erase :
    (p q : Names) (d : Disk) → lookup q (erase p d) ≡ (if names_eq p q then none else lookup q d)
unfolding lookup erase
lookup-erase p q [] = ground arith
lookup-erase p q ((r, x) ∷ d) =
    ground (arith, lookup-erase p q d, names_eq_iff p q, names_eq_iff r p, names_eq_iff r q)

pub lookup-insert :
    (p q : Names) (x : Node) (d : Disk)
    → lookup q (insert p x d) ≡ (if names_eq p q then some x else lookup q d)
unfolding lookup insert
lookup-insert p q x d = ground (arith, lookup-erase p q d)

pub look-erase :
    (m : Text) (p q : Names) (d : Disk)
    → look q (erase (m ∷ p) d) ≡ (if names_eq (m ∷ p) q then none else look q d)
unfolding look names_eq
look-erase m p [] d = refl
look-erase m p (n ∷ q) d = lookup-erase (m ∷ p) (n ∷ q) d

pub look-insert :
    (m : Text) (p q : Names) (x : Node) (d : Disk)
    → look q (insert (m ∷ p) x d) ≡ (if names_eq (m ∷ p) q then some x else look q d)
unfolding look names_eq
look-insert m p [] x d = refl
look-insert m p (n ∷ q) x d = lookup-insert (m ∷ p) (n ∷ q) x d

pub strip_sound : (p q : Names) {r : Names} → strip p q ≡ some r → q ≡ p ++ r
unfolding strip
strip_sound [] q e = some_inj e
strip_sound (m ∷ p) [] e = absurd (cc e)
strip_sound (m ∷ p) (n ∷ q) e = elim (Bool-cases (text_eq m n)) [
  | inl t ↦ rw ((text_eq_iff m n).0 t) (ap (λ z. n ∷ z) (strip_sound p q (rw t at e)))
  | inr t ↦ absurd (cc (rw t at e))
]

pub strip-append : (p r : Names) → strip p (p ++ r) ≡ some r
unfolding strip
strip-append [] r = refl
strip-append (m ∷ p) r = rw (text_eq_refl m) (strip-append p r)

-- What every directory tree satisfies: whatever is above an entry is a directory.
abbrev pub IsTree : Disk → Type 0
IsTree d =
    (a : Names) (n : Text) (ns : Names) (x : Node)
    → look (a ++ n ∷ ns) d ≡ some x
    → look a d ≡ some folder

-- `Lstat` finds what is there, and nothing else.
lstat_below_sound :
    (a ns : Names) (d : Disk) {x : Node}
    → look a d ≡ some folder
    → lstat_below a ns d ≡ done x
    → look (a ++ ns) d ≡ some x
unfolding lstat_below
lstat_below_sound a [] d h e = rw append-nil (cc)
lstat_below_sound a (n ∷ []) d h e = elim (Option-cases (look (a ++ n ∷ []) d)) [
  | inl q ↦ absurd (cc (rw (lstat_below, q) at e))
  | inr (y, q) ↦ cc (q, rw (lstat_below, q) at e)
]
lstat_below_sound a (n ∷ m ∷ ns) d {x = x} h e = elim (Option-cases (look (a ++ n ∷ []) d)) [
  | inl q ↦ absurd (cc (rw (lstat_below, q) at e))
  | inr (file b t, q) ↦ absurd (cc (rw (lstat_below, q) at e))
  | inr (folder, q) ↦
      rw append_assoc at (lstat_below_sound (a ++ n ∷ []) (m ∷ ns) d q (rw (lstat_below, q) at e))
  | inr (link l, q) ↦ absurd (cc (rw (lstat_below, q) at e))
]

lstat_below_found :
    (a ns : Names) (d : Disk) {x : Node}
    → IsTree d
    → look a d ≡ some folder
    → look (a ++ ns) d ≡ some x
    → lstat_below a ns d ≡ done x
unfolding lstat_below
lstat_below_found a [] d t h e = cc (rw append-nil at e)
lstat_below_found a (n ∷ []) d t h e = rw (lstat_below, e)
lstat_below_found a (n ∷ m ∷ ns) d {x = x} t h e =
    let up : look (a ++ n ∷ []) d ≡ some folder = t (a ++ n ∷ []) m ns x (rw append_assoc e) in
    rw (lstat_below, up) (lstat_below_found (a ++ n ∷ []) (m ∷ ns) d t up (rw append_assoc e))

pub look-of_lstat : (p : Names) (d : Disk) {x : Node} → lstat p d ≡ done x → look p d ≡ some x
unfolding look
look-of_lstat p d e = lstat_below_sound [] p d refl e

pub lstat-of_look :
    (p : Names) (d : Disk) {x : Node} → IsTree d → look p d ≡ some x → lstat p d ≡ done x
unfolding look
lstat-of_look p d t e = lstat_below_found [] p d t refl e

-- An entry of a directory, or of a directory in it, shows among the children.
pub parent-snoc : (p : Names) (n : Text) → parent (p ++ n ∷ []) ≡ p
unfolding parent
parent-snoc [] n = refl
parent-snoc (m ∷ []) n = refl
parent-snoc (m ∷ l ∷ p) n = ap (λ z. m ∷ z) (parent-snoc (l ∷ p) n)

pub children_nil :
    (p : Names) (n : Text) (d : Disk) {x : Node}
    → is_nil (children p d) ≡ true
    → lookup (p ++ n ∷ []) d ≢ some x
unfolding children lookup
children_nil p n [] {x = x} e h = absurd (cc h)
children_nil p n ((q, y) ∷ d) {x = x} e h = elim (Bool-cases (names_eq q (p ++ n ∷ []))) [
  | inl t ↦ absurd (
      ground (arith, e, ap (strip p) ((names_eq_iff q (p ++ n ∷ [])).0 t), strip-append p (n ∷ [])))
  | inr t ↦ children_nil p n d {x = x} (ground arith) (rw t at h)
]
