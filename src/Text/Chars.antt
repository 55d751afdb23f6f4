-- ===== src/Text/Chars.antt =====
-- What the characters of a text have in common, through the text functions; split and join.
use mathlib.Core.List.{reverse, reverse-cons}
use ialbum.Base.{
  ℕ, Bool, false, List, [], ◌∷◌, ◌++◌, ◌≡◌, ◌≢◌, refl, arith, ◌==◌, if◌then◌else◌, All, All-append,
  Bool-cases, inl, inr,
}
use ialbum.Text.{Text, contains, replace_all, trim_left, trim, split, join}

module _ {ℓ κ} {A : Type ℓ} (P : A → Type κ) where
  pub All-reverse : (xs : List A) → All P xs → All P (reverse xs)
  All-reverse [] h = h
  All-reverse (x ∷ xs) h =
      rw reverse-cons (All-append P (reverse xs) (x ∷ []) (All-reverse xs h.1) (h.0, tt))

module _ {κ} (P : ℕ → Type κ) where
  All-trim_left : (p : ℕ → Bool) (s : Text) → All P s → All P (trim_left p s)
  unfolding trim_left
  All-trim_left p [] h = h
  All-trim_left p (c ∷ s) h = elim (Bool-cases (p c)) [
    | inl e ↦ rw e (All-trim_left p s h.1)
    | inr e ↦ rw e h
  ]

  pub All-trim : (p : ℕ → Bool) (s : Text) → All P s → All P (trim p s)
  unfolding trim
  All-trim p s h = All-reverse P _ (All-trim_left p _ (All-reverse P _ (All-trim_left p s h)))

  pub All-split : (sep : ℕ) (s : Text) → All P s → All (All P) (split s sep)
  unfolding split
  All-split sep [] h = (tt, tt)
  All-split sep (c ∷ s) h = go (split s sep) (All-split sep s h.1)
    where
      go :
          (r : List Text)
          → All (All P) r
          → All
              (All P)
              (elim r [ [] ↦ [] | p ∷ ps ↦ if c == sep then [] ∷ p ∷ ps else (c ∷ p) ∷ ps ])
      go [] k = tt
      go (p ∷ ps) k = elim (Bool-cases (c == sep)) [
        | inl e ↦ rw e (tt, k)
        | inr e ↦ rw e ((h.0, k.0), k.1)
      ]

pub All-contains : (s : Text) (d : ℕ) → contains s d ≡ false → All (λ c. c ≢ d) s
unfolding contains
All-contains [] d h = tt
All-contains (c ∷ s) d h = (ground arith, All-contains s d (ground arith))

pub All-replace_all :
    (P : ℕ → Type 0) (from to : ℕ) (s : Text)
    → P to
    → to ≢ from
    → All P s
    → All (λ c. P c × (c ≢ from)) (replace_all s from to)
unfolding replace_all
All-replace_all P from to [] pt ne h = tt
All-replace_all P from to (c ∷ s) pt ne h = elim (Bool-cases (c == from)) [
  | inl e ↦ rw e ((pt, ne), All-replace_all P from to s pt ne h.1)
  | inr e ↦ rw e ((h.0, ground arith), All-replace_all P from to s pt ne h.1)
]

-- No piece holds the separator.
pub split-lacks : (sep : ℕ) (s : Text) → All (All (λ c. c ≢ sep)) (split s sep)
unfolding split
split-lacks sep [] = (tt, tt)
split-lacks sep (c ∷ s) = go (split s sep) (split-lacks sep s)
  where
    go :
        (r : List Text)
        → All (All (λ c. c ≢ sep)) r
        → All
            (All (λ c. c ≢ sep))
            (elim r [ [] ↦ [] | p ∷ ps ↦ if c == sep then [] ∷ p ∷ ps else (c ∷ p) ∷ ps ])
    go [] k = tt
    go (p ∷ ps) k = elim (Bool-cases (c == sep)) [
      | inl e ↦ rw e (tt, k)
      | inr e ↦ rw e ((ground arith, k.0), k.1)
    ]

split-piece : (sep : ℕ) (p : Text) → All (λ c. c ≢ sep) p → split p sep ≡ p ∷ []
unfolding split
split-piece sep [] h = refl
split-piece sep (c ∷ p) h = rw (split-piece sep p h.1) (ground arith)

split-ne-nil : (sep : ℕ) (s : Text) → split s sep ≢ []
unfolding split
split-ne-nil sep [] = λ e. cc
split-ne-nil sep (c ∷ s) = go (split s sep) (split-ne-nil sep s)
  where
    go :
        (r : List Text)
        → r ≢ []
        → (elim r [ [] ↦ [] | p ∷ ps ↦ if c == sep then [] ∷ p ∷ ps else (c ∷ p) ∷ ps ]) ≢ []
    go [] n = n
    go (p ∷ ps) n = ground arith

split-append :
    (sep : ℕ) (p rest : Text)
    → All (λ c. c ≢ sep) p
    → split (p ++ sep ∷ rest) sep ≡ p ∷ split rest sep
unfolding split
split-append sep [] rest h = go (split rest sep) (split-ne-nil sep rest)
  where
    go :
        (r : List Text)
        → r ≢ []
        → (elim r [ [] ↦ [] | p ∷ ps ↦ if sep == sep then [] ∷ p ∷ ps else (sep ∷ p) ∷ ps ])
          ≡ [] ∷ r
    go [] n = absurd (n refl)
    go (p ∷ ps) n = ground arith
split-append sep (c ∷ p) rest h = rw (split-append sep p rest h.1) (ground arith)

-- Splitting a join gives the pieces back, if there is a piece and none holds the separator.
pub split-join :
    (sep : ℕ) (p : Text) (ps : List Text)
    → All (All (λ c. c ≢ sep)) (p ∷ ps)
    → split (join (p ∷ ps) sep) sep ≡ p ∷ ps
unfolding join
split-join sep p [] h = split-piece sep p h.0
split-join sep p (q ∷ ps) h =
    rw (split-append sep p (join (q ∷ ps) sep) h.0, split-join sep q ps h.1)
