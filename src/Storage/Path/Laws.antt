-- ===== src/Storage/Path/Laws.antt =====
-- `NormalizeRelative` gives paths that stay below the storage root.

use ialbum.Base.{
  ℕ, zero, suc, Bool, false, ◌||◌, List, [], ◌∷◌, ◌++◌, append-nil, ◌≡◌, ◌≢◌, refl, ap, arith, All,
  All-imp, All-zip, Bool-cases, inl, inr,
}
use ialbum.Text.{
  Text, codes, text_eq, is_empty, has_prefix, trim_prefix, contains, trim_space, split, join,
  is_space,
}
use ialbum.Text.Laws.{text_eq_iff}
use ialbum.Text.Chars.{
  All-reverse, All-trim, All-split, All-contains, All-replace_all, split-lacks, split-join,
}
use ialbum.Storage.{ok, err, other}
use ialbum.Storage.Path.{
  slash, backslash, dot, dot_dot, clean_step, clean_parts, replicate, or_dot, clean, accept_cleaned,
  normalize_value, normalize_relative,
}

-- A character that no driver takes for a separator or for the end of a text.
abbrev pub Plain : ℕ → Type 0
Plain c = (c ≢ 0) × (c ≢ backslash) × (c ≢ slash)

abbrev Plain' : ℕ → Type 0
Plain' c = (c ≢ 0) × (c ≢ backslash)

-- The name of an entry of a directory.
pub record IsName (p : Text) : Type 0 where
  pub nonempty : p ≢ []
  pub not_dot : p ≢ dot
  pub not_dot_dot : p ≢ dot_dot
  pub plain : All Plain p

-- A path of names: it is relative, and no element leads up or stays.
pub record IsInside (r : Text) : Type 0 where
  pub names : List Text
  pub joined : r ≡ join names slash
  pub all_names : All IsName names

IsInside-root : {r : Text} → r ≡ [] → IsInside r
unfolding join
IsInside-root e = record { names = []; joined = e; all_names = tt }

clean_step-IsName :
    (rooted : Bool) (ups : ℕ) (names : List Text) (p : Text)
    → All IsName names
    → All Plain p
    → All IsName (clean_step rooted ups names p).1
unfolding clean_step
clean_step-IsName rooted ups [] p h k = ground (arith, text_eq_iff p dot, text_eq_iff p dot_dot)
clean_step-IsName rooted ups (n ∷ ns) p h k =
    ground (arith, text_eq_iff p dot, text_eq_iff p dot_dot)

clean_parts-IsName :
    (rooted : Bool) (ups : ℕ) (names ps : List Text)
    → All IsName names
    → All (All Plain) ps
    → All IsName (clean_parts rooted ups names ps).1
unfolding clean_parts
clean_parts-IsName rooted ups names [] h k = h
clean_parts-IsName rooted ups names (p ∷ ps) h k =
    clean_parts-IsName rooted (clean_step rooted ups names p).0 (clean_step rooted ups names p).1 ps
      (clean_step-IsName rooted ups names p h k.0) k.1

-- A name is no `.` in front of a separator.
no_stay : (n rest : Text) → IsName n → has_prefix (n ++ rest) (codes "./") ≡ false
unfolding has_prefix
no_stay [] rest h = absurd (h.nonempty refl)
no_stay (c ∷ []) rest h = ground (arith, h.not_dot)
no_stay (c ∷ d ∷ n) rest h = ground (arith, h.plain)

no_stay_join :
    (n : Text) (ns : List Text) → IsName n → has_prefix (join (n ∷ ns) slash) (codes "./") ≡ false
unfolding join
no_stay_join n [] h = rw (← append-nil n) (no_stay n [] h)
no_stay_join n (m ∷ ns) h = no_stay n (slash ∷ join (m ∷ ns) slash) h

trim_prefix_none :
    (s : Text) (c : ℕ) (p : Text) → has_prefix s (c ∷ p) ≡ false → trim_prefix s (c ∷ p) ≡ s
unfolding trim_prefix
trim_prefix_none [] c p h = refl
trim_prefix_none (d ∷ s) c p h = rw h

join-ne-nil : (n : Text) (ns : List Text) → IsName n → join (n ∷ ns) slash ≢ []
unfolding join
join-ne-nil n [] h = h.nonempty
join-ne-nil [] (m ∷ ns) h = absurd (h.nonempty refl)
join-ne-nil (c ∷ n) (m ∷ ns) h = λ e. cc

or_dot_ne : (s : Text) → s ≢ [] → or_dot s ≡ s
unfolding or_dot
or_dot_ne [] h = absurd (h refl)
or_dot_ne (c ∷ s) h = refl

-- The names lack separators, so the path splits into them again.
lacks : (ns : List Text) → All IsName ns → All (All (λ c. c ≢ slash)) ns
lacks ns h = All-imp (λ n k. All-imp (λ c p. p.2) n k.plain) ns h

pub split-names :
    (n : Text) (ns : List Text) → All IsName (n ∷ ns) → split (join (n ∷ ns) slash) slash ≡ n ∷ ns
split-names n ns h = split-join slash n ns (lacks (n ∷ ns) h)

join-ne-dot : (n : Text) (ns : List Text) → All IsName (n ∷ ns) → join (n ∷ ns) slash ≢ dot
unfolding split
join-ne-dot n ns h e = h.0.not_dot (cc (split-names n ns h, ap (λ s. split s slash) e))

accepted_join :
    (s : Text) {r : Text}
    → s ≢ []
    → s ≢ dot
    → has_prefix s (codes "./") ≡ false
    → accept_cleaned (or_dot s) ≡ ok r
    → r ≡ s
unfolding accept_cleaned
accepted_join s n d p e =
    ground (arith, or_dot_ne s n, text_eq_iff s dot, trim_prefix_none s b'.' (codes "/") p)

accept-names :
    (ns : List Text) {r : Text}
    → All IsName ns
    → accept_cleaned (or_dot (join ns slash)) ≡ ok r
    → IsInside r
unfolding accept_cleaned or_dot join text_eq has_prefix
accept-names [] h e = record { names = []; joined = cc e; all_names = tt }
accept-names (n ∷ ns) h e = record {
  names = n ∷ ns;
  joined =
      accepted_join (join (n ∷ ns) slash) (join-ne-nil n ns h.0) (join-ne-dot n ns h)
        (no_stay_join n ns h.0) e;
  all_names = h;
}

accept-climb :
    (ups : ℕ) (ns : List Text)
    → accept_cleaned (or_dot (join (replicate (suc ups) dot_dot ++ ns) slash))
      ≡ err (other (codes "path escapes storage root"))
unfolding accept_cleaned or_dot join has_prefix text_eq
accept-climb zero [] = refl
accept-climb zero (n ∷ ns) = refl
accept-climb (suc ups) ns = refl

accept-elements :
    (ups : ℕ) (ns : List Text) {r : Text}
    → All IsName ns
    → accept_cleaned (or_dot (join (replicate ups dot_dot ++ ns) slash)) ≡ ok r
    → IsInside r
accept-elements zero ns h e = accept-names ns h e
accept-elements (suc ups) ns h e = absurd (cc (accept-climb ups ns, e))

module _ (value : Text) (h : All Plain' value) where
  Plain-pieces : All (All Plain) (split value slash)
  Plain-pieces =
      All-imp (λ p k. All-imp (λ c q. (q.0.0, q.0.1, q.1)) p k) _
        (All-imp (λ p k. All-zip Plain' (λ c. c ≢ slash) p k.0 k.1) _
          (All-zip (All Plain') (All (λ c. c ≢ slash)) _ (All-split Plain' slash value h)
            (split-lacks slash value)))

  parts-IsName : All IsName (clean_parts false 0 [] (split value slash)).1
  parts-IsName = clean_parts-IsName false 0 [] (split value slash) tt Plain-pieces

  clean-IsInside :
      {r : Text}
      → has_prefix value (slash ∷ []) ≡ false
      → accept_cleaned (clean value) ≡ ok r
      → IsInside r
  unfolding clean
  clean-IsInside p e =
      accept-elements (clean_parts false 0 [] (split value slash)).0 _
        (All-reverse IsName _ parts-IsName) (rw (p, clean) at e)

  normalize_value-IsInside : {r : Text} → normalize_value value ≡ ok r → IsInside r
  unfolding normalize_value
  normalize_value-IsInside e = elim (Bool-cases (is_empty value || text_eq value dot)) [
    | inl t ↦ IsInside-root (cc (rw t at e))
    | inr t ↦ elim (Bool-cases (has_prefix value (slash ∷ []))) [
      | inl p ↦ absurd (ground (arith, e, t, p))
      | inr p ↦ clean-IsInside p (rw (t, p) at e)
    ]
  ]

-- What `NormalizeRelative` accepts stays below the storage root: the result is empty, or it is
-- names joined by `/`, none of them empty, `.` or `..`, with no NUL and no backslash.
pub normalize_relative-IsInside :
    (value : Text) {r : Text} → normalize_relative value ≡ ok r → IsInside r
unfolding normalize_relative trim_space
normalize_relative-IsInside value e = elim (Bool-cases (contains value 0)) [
  | inl t ↦ absurd (cc (rw t at e))
  | inr t ↦
      normalize_value-IsInside _
        (All-replace_all (λ c. c ≢ 0) backslash slash _ (omega arith) (omega arith)
          (All-trim (λ c. c ≢ 0) is_space value (All-contains value 0 t)))
        (rw t at e)
]
