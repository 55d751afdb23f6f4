-- ===== src/Storage/Disk/Rename.antt =====
-- What a rename does to every path.
use ialbum.Base.{
  false, ◌&&◌, [], ◌∷◌, ◌++◌, append-nil, append_assoc, ◌≢◌, ◌⊎◌, inl, inr, Option, none, some,
  is_some, some_inj, ◌≡◌, refl, sym, ap, ◌∙◌, arith, if◌then◌else◌, Bool-cases, Option-cases, All,
}
use ialbum.Text.{Text, text_eq}
use ialbum.Text.Laws.{text_eq_iff}
use mathlib.Core.Path.{subst}
use ialbum.Storage.Disk.{
  Names, Node, folder, Disk, names_eq, lookup, erase, look, parent, lstat, done, in_folder,
  OsResult-cases, strip, rebase, rename, rename_onto, is_folder, found_folder,
}
use ialbum.Storage.Disk.Laws.{
  IsTree, names_eq_iff, names_eq_refl, names_ne, lookup-erase, strip-append, strip_sound,
}
use ialbum.Storage.Disk.Trees.{IsBare, IsBare-leaf, IsBare-absent, above, folder-of_in_folder}

abbrev place {ℓ} : {A : Type ℓ} → Names → A → (Names → A) → Names → Option Names → Option Names → A
place from nothing f q (some s) behind = f (from ++ s)
place from nothing f q none (some s) = nothing
place from nothing f q none none = f q

-- A function on paths after a move: what was at the old place is at the new one.
abbrev pub moved {ℓ} : {A : Type ℓ} → Names → Names → A → (Names → A) → Names → A
moved from to nothing f q = place from nothing f q (strip to q) (strip from q)

abbrev Clear : Names → Disk → Type 0
Clear to = All (λ e. strip to e.0 ≡ none)

Clear-absent : (to : Names) (d : Disk) → ((s : Names) → lookup (to ++ s) d ≡ none) → Clear to d
unfolding lookup
Clear-absent to [] h = tt
Clear-absent to ((q, x) ∷ d) h = (
  elim (Option-cases (strip to q)) [
    | inl e ↦ e
    | inr (s, e) ↦ absurd (cc (rw (lookup, ← strip_sound to q e, names_eq_refl) at (h s)))
  ],
  Clear-absent to d (λ s. ground (arith, h s)),
)

pub strip-ne : (p q r : Names) → strip p q ≡ none → names_eq q (p ++ r) ≡ false
strip-ne p q r h = names_ne q (p ++ r) (λ e. cc (ap (strip p) e, strip-append p r, h))

cancel_front : (p r s : Names) → p ++ r ≡ p ++ s → r ≡ s
cancel_front p r s e = some_inj (sym (strip-append p r) ∙ ap (strip p) e ∙ strip-append p s)

same_front : (p q r s : Names) → names_eq (p ++ r) (p ++ s) ≡ names_eq (q ++ r) (q ++ s)
same_front p q r s = elim (Bool-cases (names_eq r s)) [
  | inl e ↦ rw ((names_eq_iff r s).0 e, names_eq_refl (p ++ s), names_eq_refl (q ++ s))
  | inr e ↦ rw (
    names_ne (p ++ r) (p ++ s) (λ w. ne e (cancel_front p r s w)),
    names_ne (q ++ r) (q ++ s) (λ w. ne e (cancel_front q r s w)),
  )
]
  where
    ne : names_eq r s ≡ false → r ≢ s
    ne e w = ground (arith, names_eq_iff r s)

-- An entry that stays, and one that moves.
stays :
    (from to e q : Names) (x : Node) (d : Disk)
    → strip to e ≡ none
    → strip from e ≡ none
    → (if names_eq e q then some x else moved from to none (λ p. lookup p d) q)
      ≡ moved from to none (λ p. lookup p ((e, x) ∷ d)) q
unfolding lookup
stays from to e q x d h c = elim (Option-cases (strip to q)) [
  | inr (s, a) ↦ rw (
    a,
    names_ne e q (λ w. cc (h, ap (strip to) w, a)),
    names_ne e (from ++ s) (λ w. cc (c, ap (strip from) w, strip-append from s)),
  )
  | inl a ↦ elim (Option-cases (strip from q)) [
    | inr (s, b) ↦ rw (a, b, names_ne e q (λ w. cc (c, ap (strip from) w, b)))
    | inl b ↦ rw (a, b)
  ]
]

moves :
    (from to r e q : Names) (x : Node) (d : Disk)
    → e ≡ from ++ r
    → (if names_eq (to ++ r) q then some x else moved from to none (λ p. lookup p d) q)
      ≡ moved from to none (λ p. lookup p ((e, x) ∷ d)) q
unfolding lookup
moves from to r e q x d c = elim (Option-cases (strip to q)) [
  | inr (s, a) ↦ rw (a, c, strip_sound to q a, same_front to from r s)
  | inl a ↦ elim (Option-cases (strip from q)) [
    | inr (s, b) ↦ rw (a, b, names_ne (to ++ r) q (λ w. cc (a, ap (strip to) w, strip-append to r)))
    | inl b ↦ rw (
      a,
      b,
      names_ne (to ++ r) q (λ w. cc (a, ap (strip to) w, strip-append to r)),
      names_ne e q (λ w. cc (b, ap (strip from) (sym c ∙ w), strip-append from r)),
    )
  ]
]

lookup-rebase :
    (from to q : Names) (d : Disk)
    → Clear to d
    → lookup q (rebase from to d) ≡ moved from to none (λ p. lookup p d) q
unfolding lookup rebase
lookup-rebase from to q [] h = elim (Option-cases (strip to q)) [
  | inr (r, a) ↦ rw a
  | inl a ↦ elim (Option-cases (strip from q)) [ inl b ↦ rw (a, b) | inr (s, b) ↦ rw (a, b) ]
]
lookup-rebase from to q ((e, x) ∷ d) h = elim (Option-cases (strip from e)) [
  | inl c ↦ rw (rebase, c, lookup-rebase from to q d h.1) (stays from to e q x d h.0 c)
  | inr (r, c) ↦
      rw (rebase, c, lookup-rebase from to q d h.1) (moves from to r e q x d (strip_sound from e c))
]

below-erase :
    (n : Text) (to : Names) (d : Disk)
    → IsBare (n ∷ to) d
    → (s : Names) → lookup (n ∷ to ++ s) (erase (n ∷ to) d) ≡ none
unfolding look
below-erase n to d b [] = rw (append-nil, lookup-erase, names_eq_refl (n ∷ to))
below-erase n to d b (m ∷ s) = elim (Option-cases (lookup (n ∷ to ++ m ∷ s) d)) [
  | inl e ↦ rw lookup-erase (ground arith)
  | inr (y, e) ↦ absurd (b m s y e)
]

pub strip_self : (p : Names) → strip p p ≡ some []
strip_self p = rw append-nil at (strip-append p [])

place-look :
    (m k : Text) (from q : Names) (d : Disk) (a b : Option Names)
    → place (m ∷ from) none (λ p. lookup p d) (k ∷ q) a b
      ≡ place (m ∷ from) none (λ p. look p d) (k ∷ q) a b
unfolding look
place-look m k from q d (some s) b = refl
place-look m k from q d none (some s) = refl
place-look m k from q d none none = refl

-- A directory above a path, as seen from another one.
strip_above :
    (p a : Names) (n : Text) (ns : Names) {s : Names}
    → strip p (a ++ n ∷ ns) ≡ some s
    → ((r : Names) × (strip p a ≡ some r) × (s ≡ r ++ n ∷ ns))
      ⊎ ((k : Text) × (ks : Names) × (p ≡ a ++ k ∷ ks) × (strip p a ≡ none))
unfolding strip
strip_above [] a n ns e = inl (a, refl, some_inj (sym e))
strip_above (l ∷ p) [] n ns e = inr (l, p, refl, refl)
strip_above (l ∷ p) (k ∷ a) n ns e = elim (Bool-cases (text_eq l k)) [
  | inr t ↦ absurd (cc (rw t at e))
  | inl t ↦ elim (strip_above p a n ns (rw t at e)) [
    | inl (r, x, y) ↦ inl (r, rw (strip, t) x, y)
    | inr (j, js, x, y) ↦ inr (j, js, cc ((text_eq_iff l k).0 t, x), rw (strip, t) y)
  ]
]

strip_further : (p a b : Names) {r : Names} → strip p a ≡ some r → strip p (a ++ b) ≡ some (r ++ b)
strip_further p a b e = rw (strip_sound p a e, append_assoc) (strip-append p _)

module _ (from to : Names) (m n : Text) (d : Disk) (bare : IsBare (n ∷ to) d)
    (outside : strip (m ∷ from) (n ∷ to) ≡ none) where
  abbrev renamed : Disk
  renamed = rebase (m ∷ from) (n ∷ to) (erase (n ∷ to) d)

  erase-keeps :
      (q : Names)
      → place
          (m ∷ from)
          none
          (λ p. lookup p (erase (n ∷ to) d))
          q
          (strip (n ∷ to) q)
          (strip (m ∷ from) q)
        ≡ place (m ∷ from) none (λ p. lookup p d) q (strip (n ∷ to) q) (strip (m ∷ from) q)
  erase-keeps q = elim (Option-cases (strip (n ∷ to) q)) [
    | inr (s, a) ↦ rw (
      a,
      lookup-erase,
      names_ne (n ∷ to) (m ∷ from ++ s)
          (λ w. cc (outside, ap (strip (m ∷ from)) w, strip-append (m ∷ from) s)),
    )
    | inl a ↦ elim (Option-cases (strip (m ∷ from) q)) [
      | inr (s, c) ↦ rw (a, c)
      | inl c ↦ rw (
        a,
        c,
        lookup-erase,
        names_ne (n ∷ to) q (λ w. cc (a, ap (strip (n ∷ to)) w, strip_self (n ∷ to))),
      )
    ]
  ]

  look-moved : (q : Names) → look q renamed ≡ moved (m ∷ from) (n ∷ to) none (λ p. look p d) q
  unfolding look strip
  look-moved [] = refl
  look-moved (k ∷ q) =
      lookup-rebase (m ∷ from) (n ∷ to) (k ∷ q) (erase (n ∷ to) d)
        (Clear-absent (n ∷ to) (erase (n ∷ to) d) (below-erase n to d bare))
      ∙ erase-keeps (k ∷ q)
      ∙ place-look m k from q d (strip (n ∷ to) (k ∷ q)) (strip (m ∷ from) (k ∷ q))

  -- The tree stays a tree.
  IsTree-renamed : IsTree d → look (parent (n ∷ to)) d ≡ some folder → IsTree renamed
  IsTree-renamed t up a k ks x e = elim (Option-cases (strip (n ∷ to) (a ++ k ∷ ks))) [
    | inr (s, w) ↦ elim (strip_above (n ∷ to) a k ks w) [
      | inl (r, y, z) ↦
          rw (look-moved a, y)
            (t (m ∷ from ++ r) k ks x
              (rw (append_assoc, ← z) (rw (look-moved (a ++ k ∷ ks), w) at e)))
      | inr (j, js, y, z) ↦ elim (Option-cases (strip (m ∷ from) a)) [
        | inr (r, q) ↦
            absurd (cc (outside, ap (strip (m ∷ from)) y, strip_further (m ∷ from) a (j ∷ js) q))
        | inl q ↦
            rw (look-moved a, z, q)
              (above a j js d t (subst (λ p. look (parent p) d ≡ some folder) y up))
      ]
    ]
    | inl w ↦ elim (Option-cases (strip (m ∷ from) (a ++ k ∷ ks))) [
      | inr (r, v) ↦ absurd (cc (rw (look-moved (a ++ k ∷ ks), w, v) at e))
      | inl v ↦ elim (Option-cases (strip (n ∷ to) a)) [
        | inr (r, q) ↦ absurd (cc (w, strip_further (n ∷ to) a (k ∷ ks) q))
        | inl q ↦ elim (Option-cases (strip (m ∷ from) a)) [
          | inr (r, u) ↦ absurd (cc (v, strip_further (m ∷ from) a (k ∷ ks) u))
          | inl u ↦ rw (look-moved a, q, u) (t a k ks x (rw (look-moved (a ++ k ∷ ks), w, v) at e))
        ]
      ]
    ]
  ]

-- What a rename does where it succeeds: nothing for a path renamed to itself, and else the entries
-- move and the tree stays a tree.
unfoldable pub Renamed : Names → Names → Disk → Disk → Type 0
Renamed from to d e =
    IsTree e
    × (((from ≡ to) × (e ≡ d))
        ⊎ (IsBare to d × ((q : Names) → look q e ≡ moved from to none (λ p. look p d) q)))

IsBare-nonfolder : (p : Names) (d : Disk) → IsTree d → found_folder (look p d) ≡ false → IsBare p d
IsBare-nonfolder p d t h = elim (Option-cases (look p d)) [
  | inl e ↦ IsBare-absent p d t e
  | inr (x, e) ↦ IsBare-leaf p d t e (λ w. cc (rw (e, w) at h))
]

rename_onto_lem :
    (from to : Names) (m n : Text) (x : Node) (d : Disk) {e : Disk}
    → IsTree d
    → look (parent (n ∷ to)) d ≡ some folder
    → found_folder (look (n ∷ to) d) ≡ false
    → rename_onto x (m ∷ from) (n ∷ to) d ≡ done e
    → Renamed (m ∷ from) (n ∷ to) d e
unfolding Renamed rename_onto
rename_onto_lem from to m n x d {e = e} t up nf h =
    elim (Option-cases (strip (m ∷ from) (n ∷ to))) [
      | inr ([], w) ↦
          let same : d ≡ e = cc (rw (rename_onto, w) at h) in
          (
            subst IsTree same t,
            inl (sym (strip_sound (m ∷ from) (n ∷ to) w ∙ append-nil (m ∷ from)), sym same),
          )
      | inr (k ∷ ks, w) ↦ absurd (cc (rw (rename_onto, w) at h))
      | inl w ↦ elim (Bool-cases (is_folder x && is_some (lookup (n ∷ to) d))) [
        | inl v ↦ absurd (cc (rw (rename_onto, w, v) at h))
        | inr v ↦
            let bare : IsBare (n ∷ to) d = IsBare-nonfolder (n ∷ to) d t nf in
            let same : renamed from to m n d bare w ≡ e = cc (rw (rename_onto, w, v) at h) in
            (
              subst IsTree same (IsTree-renamed from to m n d bare w t up),
              inr (bare, λ q. ap (look q) (sym same) ∙ look-moved from to m n d bare w q),
            )
      ]
    ]

rename_past :
    (from to : Names) (x : Node) (d : Disk) {e : Disk}
    → IsTree d
    → look (parent to) d ≡ some folder
    → found_folder (look to d) ≡ false
    → rename_onto x from to d ≡ done e
    → Renamed from to d e
unfolding rename_onto look strip
rename_past from [] x d t up nf h = absurd (cc nf)
rename_past [] (n ∷ to) x d t up nf h = absurd (cc h)
rename_past (m ∷ from) (n ∷ to) x d t up nf h = rename_onto_lem from to m n x d t up nf h

pub rename_lem :
    (from to : Names) (d : Disk) {e : Disk}
    → IsTree d
    → rename from to d ≡ done e
    → Renamed from to d e
unfolding rename
rename_lem from to d t h = elim (OsResult-cases (lstat from d)) [
  | inr (f, w) ↦ absurd (cc (rw (rename, w) at h))
  | inl (x, w) ↦ elim (OsResult-cases (in_folder (lstat (parent to) d))) [
    | inr (f, v) ↦ absurd (cc (rw (rename, w, v) at h))
    | inl (u, v) ↦ elim (Bool-cases (found_folder (look to d))) [
      | inl z ↦ absurd (cc (rw (rename, w, v, z) at h))
      | inr z ↦
          rename_past from to x d t (folder-of_in_folder (parent to) d v) z
            (rw (rename, w, v, z) at h)
    ]
  ]
]

-- A path renamed to itself stays.
pub moved_self {ℓ} :
    {A : Type ℓ} (p : Names) (a : A) (f : Names → A) (q : Names) → moved p p a f q ≡ f q
moved_self p a f q = elim (Option-cases (strip p q)) [
  | inl e ↦ rw e
  | inr (s, e) ↦ rw (e, strip_sound p q e)
]

-- A move of equal values.
pub moved_ext {ℓ} :
    {A : Type ℓ} (from to : Names) (a : A) (f g : Names → A)
    → ((q : Names) → f q ≡ g q)
    → (q : Names) → moved from to a f q ≡ moved from to a g q
moved_ext from to a f g h q = go (strip to q) (strip from q)
  where
    go : (x y : Option Names) → place from a f q x y ≡ place from a g q x y
    go (some s) y = h (from ++ s)
    go none (some s) = refl
    go none none = h q

-- A function of what is at the paths moves with it.
pub moved-map {ℓ κ} :
    {A : Type ℓ} {B : Type κ} (k : A → B) (from to : Names) (a : A) (f : Names → A) (q : Names)
    → k (moved from to a f q) ≡ moved from to (k a) (λ p. k (f p)) q
moved-map k from to a f q = go (strip to q) (strip from q)
  where
    go : (x y : Option Names) → k (place from a f q x y) ≡ place from (k a) (λ p. k (f p)) q x y
    go (some s) y = refl
    go none (some s) = refl
    go none none = refl
