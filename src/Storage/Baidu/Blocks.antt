-- ===== src/Storage/Baidu/Blocks.antt =====
-- internal/storage/baidu/baidu.go: the two passes of `Put` over the source, in blocks.
pub mod Notes
pub mod Asked
pub mod Sent
use ialbum.Base.{
  length-take, length-drop, if◌then◌else◌, ℕ, zero, suc, ◌+◌, ◌≤◌, ◌<◌, Bool, true, false, List, [],
  ◌∷◌, ◌++◌, map, append-nil, append_assoc, Option, none, some, ◌⊎◌, inl, inr, ◌≡◌, refl, sym, ap,
  ◌∙◌, arith, leb, leb→le, leb→lt, le→leb, length, length-append, take, drop, Bool-cases,
  Option-cases,
}
use ialbum.Text.{Text, is_empty}
use ialbum.Storage.{Result, Result-cases, ok, err, Error}
use ialbum.Storage.Local.Put.{concat}
use ialbum.Storage.Baidu.{Env}
use ialbum.Storage.Baidu.Upload.{
  Source, hash_error, block_size, read_block, hash_blocks, block_hashes, prepend, or_one,
}

-- Full blocks but for the last one, which is empty only if it is the first.
abbrev pub IsCut : List (List ℕ) → Type 0
IsCut [] = ⊥
IsCut (b ∷ []) = length b ≤ block_size
IsCut (b ∷ c ∷ bs) = (length b ≡ block_size) × (0 < length c) × IsCut (c ∷ bs)

-- The blocks of a content.
pub record IsBlocks (content : List ℕ) (bs : List (List ℕ)) : Type 0 where
  pub whole : concat bs ≡ content
  pub cut : IsCut bs

-- One more block in front of those of the rest, of which there may be none.
abbrev FollowUp : List ℕ → List (List ℕ) → Type 0
FollowUp content [] = content ≡ []
FollowUp content (b ∷ bs) = (0 < length b) × IsBlocks content (b ∷ bs)

take-drop : (n : ℕ) (xs : List ℕ) → take n xs ++ drop n xs ≡ xs
take-drop zero xs = refl
take-drop (suc n) [] = refl
take-drop (suc n) (x ∷ xs) = ap (λ z. x ∷ z) (take-drop n xs)

pub take-front : (n : ℕ) (b r : List ℕ) → length b ≡ n → take n (b ++ r) ≡ b
take-front zero [] r h = refl
take-front zero (x ∷ b) r h = absurd (omega arith)
take-front (suc n) [] r h = absurd (omega arith)
take-front (suc n) (x ∷ b) r h = ap (λ z. x ∷ z) (take-front n b r (omega arith))

pub drop-front : (n : ℕ) (b r : List ℕ) → length b ≡ n → drop n (b ++ r) ≡ r
drop-front zero [] r h = refl
drop-front zero (x ∷ b) r h = absurd (omega arith)
drop-front (suc n) [] r h = absurd (omega arith)
drop-front (suc n) (x ∷ b) r h = drop-front n b r (omega arith)

-- A full block in front of what follows.
full_block :
    (content : List ℕ) (bs : List (List ℕ))
    → block_size ≤ length content
    → FollowUp (drop block_size content) bs
    → FollowUp content (take block_size content ∷ bs)
full_block content [] l h =
    let t = length-take block_size content l in
    (
      omega (arith, t),
      record {
        whole = ap (λ z. take block_size content ++ z) (sym h) ∙ take-drop block_size content;
        cut = omega (arith, t);
      },
    )
full_block content (b ∷ bs) l (p, h) =
    let t = length-take block_size content l in
    (
      omega (arith, t),
      record {
        whole = ap (λ z. take block_size content ++ z) (h.whole) ∙ take-drop block_size content;
        cut = (t, p, h.cut);
      },
    )

-- A block that is read is full, or all that is left.
pub read_block_cases :
    (content : List ℕ) (ends : Option Error) {b : List ℕ}
    → read_block content ends ≡ ok b
    → ((block_size ≤ length content) × (b ≡ take block_size content))
      ⊎ ((length content < block_size) × (b ≡ content))
unfolding read_block
read_block_cases content ends {b = b} h = elim (Bool-cases (leb block_size (length content))) [
  | inl l ↦ inl (leb→le _ _ l, full (rw (l, read_block) at h))
  | inr l ↦ inr (leb→lt _ _ l, rest ends (rw (l, read_block) at h))
]
  where
    full : ok (take block_size content) ≡ ok b → b ≡ take block_size content
    full q = cc q

    rest : (o : Option Error) → elim o [ some e ↦ err e | none ↦ ok content ] ≡ ok b → b ≡ content
    rest none q = cc q
    rest (some e) q = absurd (cc q)

-- A turn of the loop of blockHashes behind the read of a block.
hash_turn :
    (env : Env) (content b : List ℕ) (rest : Result (List Text)) {hashes : List Text}
    → ((block_size ≤ length content) × (b ≡ take block_size content))
      ⊎ ((length content < block_size) × (b ≡ content))
    → (block_size ≤ length content
        → (hs : List Text) → rest ≡ ok hs
        → (bs : List (List ℕ)) × (hs ≡ map env.md5 bs) × FollowUp (drop block_size content) bs)
    → (if leb block_size (length b)
        then prepend (env.md5 b) rest
        else ok (if is_empty b then [] else env.md5 b ∷ []))
      ≡ ok hashes
    → (bs : List (List ℕ)) × (hashes ≡ map env.md5 bs) × FollowUp content bs
hash_turn env content b rest {hashes = hashes} (inl (l, e)) ih h =
    let t = length-take block_size content l in
    let f : leb block_size (length b) ≡ true = le→leb _ _ (rw e (omega (arith, t))) in
    turn (Result-cases rest) (rw f at h)
  where
    turn :
        ((hs : List Text) × (rest ≡ ok hs)) ⊎ ((x : Error) × (rest ≡ err x))
        → prepend (env.md5 b) rest ≡ ok hashes
        → (bs : List (List ℕ)) × (hashes ≡ map env.md5 bs) × FollowUp content bs
    turn (inr (x, v)) q = absurd (cc (rw v at q))
    turn (inl (hs, v)) q =
        let (bs, p, k) = ih l hs v in
        (take block_size content ∷ bs, cc (rw v at q, p, e), full_block content bs l k)
hash_turn env content b rest {hashes = hashes} (inr (l, e)) ih h =
    elim (Bool-cases (leb block_size (length b))) [
      | inl f ↦ absurd (omega (arith, leb→le _ _ f, ap length e))
      | inr f ↦ last content l e (rw f at h)
    ]
  where
    last :
        (c : List ℕ)
        → length c < block_size
        → b ≡ c
        → ok (if is_empty b then [] else env.md5 b ∷ []) ≡ ok hashes
        → (bs : List (List ℕ)) × (hashes ≡ map env.md5 bs) × FollowUp c bs
    last [] k p q = ([], cc (rw p at q), refl)
    last (x ∷ c) k p q = (
      (x ∷ c) ∷ [],
      cc (rw p at q),
      (omega arith, record { whole = append-nil (x ∷ c); cut = omega arith }),
    )

-- The hashes are those of the blocks.
hash_blocks-IsBlocks :
    (env : Env) (fuel turn : ℕ) (content : List ℕ) (ends : Option Error) {hashes : List Text}
    → length content < fuel
    → hash_blocks env fuel turn content ends ≡ ok hashes
    → (bs : List (List ℕ)) × (hashes ≡ map env.md5 bs) × FollowUp content bs
unfolding hash_blocks
hash_blocks-IsBlocks env zero turn content ends l h = absurd (omega arith)
hash_blocks-IsBlocks env (suc fuel) turn content ends l h = elim (Bool-cases (env.cancelled turn)) [
  | inl c ↦ absurd (cc (rw (c, hash_blocks) at h))
  | inr c ↦ elim (Result-cases (read_block content ends)) [
    | inr (e, v) ↦ absurd (cc (rw (c, v, hash_blocks) at h))
    | inl (b, v) ↦
        hash_turn env content b (hash_blocks env fuel (suc turn) (drop block_size content) ends)
          (read_block_cases content ends v)
          (λ q hs.
            hash_blocks-IsBlocks env fuel (suc turn) (drop block_size content) ends
              (omega (arith, length-drop block_size content, q)))
          (rw (c, v, hash_blocks) at h)
  ]
]

or_one-IsBlocks :
    (env : Env) (content : List ℕ) (r : Result (List Text)) {hashes : List Text}
    → ((hs : List Text)
        → r ≡ ok hs
        → (bs : List (List ℕ)) × (hs ≡ map env.md5 bs) × FollowUp content bs)
    → or_one env r ≡ ok hashes
    → (bs : List (List ℕ)) × (hashes ≡ map env.md5 bs) × IsBlocks content bs
or_one-IsBlocks env content (err e) found h = absurd (cc h)
or_one-IsBlocks env content (ok hs) {hashes = hashes} found h =
    let (bs, p, k) = found hs refl in pick bs p k
  where
    pick :
        (bs : List (List ℕ))
        → hs ≡ map env.md5 bs
        → FollowUp content bs
        → (cs : List (List ℕ)) × (hashes ≡ map env.md5 cs) × IsBlocks content cs
    pick [] p k = ([] ∷ [], cc (rw p at h), record { whole = sym k; cut = omega arith })
    pick (b ∷ bs) p k = (b ∷ bs, cc (rw p at h), k.1)

-- What blockHashes gives are the hashes of the blocks of the source, in order.
pub block_hashes-IsBlocks :
    (env : Env) (source : Source) {hashes : List Text}
    → block_hashes env source ≡ ok hashes
    → (bs : List (List ℕ)) × (hashes ≡ map env.md5 bs) × IsBlocks source.content bs
unfolding block_hashes
block_hashes-IsBlocks env source h = elim (Option-cases source.open_error) [
  | inr (e, v) ↦ absurd (cc (rw (v, block_hashes) at h))
  | inl v ↦
      or_one-IsBlocks env source.content
        (hash_blocks env (suc (length source.content)) 0 source.content
          (hash_error source.read_error))
        (λ hs e.
          hash_blocks-IsBlocks env (suc (length source.content)) 0 source.content
            (hash_error source.read_error) (omega arith) e)
        (rw (v, block_hashes) at h)
]
