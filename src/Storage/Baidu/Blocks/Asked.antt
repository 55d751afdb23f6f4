-- ===== src/Storage/Baidu/Blocks/Asked.antt =====
-- internal/storage/baidu/baidu.go, `Put`: the blocks that Baidu asks for.

use ialbum.Base.{
  ℕ, suc, ◌⊎◌, true, false, Elem, here, there, ◌==◌, ==_iff, List, [], ◌∷◌, inl, inr, ◌≡◌, refl, ap,
  if◌then◌else◌, Bool-cases, arith,
}
use ialbum.Text.{Text}
use ialbum.Storage.Baidu.Calls.{ℤ, pos, negsuc}
use ialbum.Storage.Baidu.{Request, upload_part}
use ialbum.Storage.Baidu.Upload.{lists, is_needed}

-- The requests for the blocks that are needed, from an index on.
abbrev pub parts : Text → Text → Text → List ℤ → ℕ → List (List ℕ) → List Request
parts token path upload_id needed i [] = []
parts token path upload_id needed i (b ∷ bs) =
    let rest = parts token path upload_id needed (suc i) bs in
    if is_needed needed i then upload_part token path upload_id i b ∷ rest else rest

-- Baidu asks for a block by its index, or for all with an empty list.
pub IsAsked : List ℤ → ℕ → Type 0
IsAsked needed i = (needed ≡ []) ⊎ Elem (pos i) needed

-- The requests send each block that Baidu asks for, once and in order, and no other.
pub data Parts (token path upload_id : Text) (needed : List ℤ)
    : ℕ → List (List ℕ) → List Request → Type 0 where
  ended : {i : ℕ} → Parts token path upload_id needed i [] []
  asked :
      {i : ℕ} {b : List ℕ} {bs : List (List ℕ)} {rs : List Request}
      → IsAsked needed i
      → Parts token path upload_id needed (suc i) bs rs
      → Parts token path upload_id needed i (b ∷ bs) (upload_part token path upload_id i b ∷ rs)
  not_asked :
      {i : ℕ} {b : List ℕ} {bs : List (List ℕ)} {rs : List Request}
      → (IsAsked needed i → ⊥)
      → Parts token path upload_id needed (suc i) bs rs
      → Parts token path upload_id needed i (b ∷ bs) rs

lists-Elem : (i : ℕ) (ns : List ℤ) → lists i ns ≡ true → Elem (pos i) ns
unfolding lists
lists-Elem i [] h = absurd (cc h)
lists-Elem i (pos n ∷ ns) h = elim (Bool-cases (i == n)) [
  | inl e ↦ here (ap pos ((==_iff i n).0 e))
  | inr e ↦ there (lists-Elem i ns (rw e at h))
]
lists-Elem i (negsuc n ∷ ns) h = there (lists-Elem i ns h)

is_listed : (i : ℕ) (ns : List ℤ) → Elem (pos i) ns → lists i ns ≡ true
unfolding lists
is_listed i [] m = elim m [ ]
is_listed i (n ∷ ns) (here e) = rw (← e, (==_iff i i).1 refl) refl
is_listed i (pos n ∷ ns) (there m) = ground (arith, is_listed i ns m)
is_listed i (negsuc n ∷ ns) (there m) = is_listed i ns m

needed-IsAsked : (needed : List ℤ) (i : ℕ) → is_needed needed i ≡ true → IsAsked needed i
unfolding is_needed IsAsked
needed-IsAsked [] i h = inl refl
needed-IsAsked (n ∷ ns) i h = inr (lists-Elem i (n ∷ ns) h)

not_needed : (needed : List ℤ) (i : ℕ) → is_needed needed i ≡ false → IsAsked needed i → ⊥
unfolding is_needed IsAsked
not_needed [] i h a = cc h
not_needed (n ∷ ns) i h (inl q) = cc q
not_needed (n ∷ ns) i h (inr m) = cc (h, is_listed i (n ∷ ns) m)

pub parts-Parts :
    (token path upload_id : Text) (needed : List ℤ) (i : ℕ) (bs : List (List ℕ))
    → Parts token path upload_id needed i bs (parts token path upload_id needed i bs)
parts-Parts token path upload_id needed i [] = ended
parts-Parts token path upload_id needed i (b ∷ bs) = elim (Bool-cases (is_needed needed i)) [
  | inl e ↦
      rw e (asked (needed-IsAsked needed i e) (parts-Parts token path upload_id needed (suc i) bs))
  | inr e ↦
      rw e (not_asked (not_needed needed i e) (parts-Parts token path upload_id needed (suc i) bs))
]
