-- ===== src/Sql/Keys.antt =====
-- Tables with a column whose values are distinct texts: a primary key or a UNIQUE column.
use ialbum.Base.{
  some_inj, ◌∙◌, Bool, true, false, ◌&&◌, List, [], ◌∷◌, map, some, ◌≡◌, ◌≢◌, sym, ap, arith, All,
  Elem, here, there, NotIn, Distinct, Bool-cases, inl, inr, if◌then◌else◌,
}
use ialbum.Text.{Text, text_eq}
use ialbum.Text.Laws.{text_eq_iff, text_eq_refl, text_ne}
use mathlib.Core.Path.{subst}
use ialbum.Sql.{count, find}
use ialbum.Sql.Laws.{count_none}

module _ {ℓ} {A : Type ℓ} (key : A → Text) where
  abbrev pub has : Text → A → Bool
  has k x = text_eq (key x) k

  pub absent : (k : Text) (xs : List A) → NotIn k (map key xs) → All (λ x. has k x ≡ false) xs
  absent k [] h = tt
  absent k (x ∷ xs) h = (ground (arith, h.0, text_eq_iff (key x) k), absent k xs h.1)

  absent_and :
      (q : A → Bool) (k : Text) (xs : List A)
      → NotIn k (map key xs)
      → All (λ x. (has k x && q x) ≡ false) xs
  absent_and q k [] h = tt
  absent_and q k (x ∷ xs) h = (ground (arith, h.0, text_eq_iff (key x) k), absent_and q k xs h.1)

  pub NotIn-Elem : (k : Text) (xs : List A) {a : A} → NotIn k (map key xs) → Elem a xs → key a ≢ k
  NotIn-Elem k [] h m q = elim m [ ]
  NotIn-Elem k (x ∷ xs) {a = a} h (here e) q = h.0 (ap key (sym e) ∙ q)
  NotIn-Elem k (x ∷ xs) h (there m) q = NotIn-Elem k xs h.1 m q

  -- A row is found by its key.
  pub find-by_key :
      (xs : List A) {a : A} → Distinct (map key xs) → Elem a xs → find (has (key a)) xs ≡ some a
  unfolding find
  find-by_key [] d m = elim m [ ]
  find-by_key (x ∷ xs) {a = a} d (here e) = rw (← e, text_eq_refl (key a))
  find-by_key (x ∷ xs) {a = a} d (there m) =
      rw (text_ne (key x) (key a) (λ q. NotIn-Elem (key x) xs d.0 m (sym q))) (find-by_key xs d.1 m)

  -- At most one row has a key, so a statement by key and condition affects that row alone.
  pub count-by_key :
      (q : A → Bool) (k : Text) (xs : List A) {a : A}
      → Distinct (map key xs)
      → find (has k) xs ≡ some a
      → count (λ x. has k x && q x) xs ≡ (if q a then 1 else 0)
  unfolding count find
  count-by_key q k [] d e = absurd (cc e)
  count-by_key q k (x ∷ xs) {a = a} d e = elim (Bool-cases (has k x)) [
    | inl t ↦
        rw (t, count_none (λ x. has k x && q x) xs (absent_and q k xs (alone t)))
          (rw (some_inj (rw t at e)))
    | inr t ↦ rw t (count-by_key q k xs d.1 (rw t at e))
  ]
    where
      alone : has k x ≡ true → NotIn k (map key xs)
      alone t = subst (λ c. NotIn c (map key xs)) ((text_eq_iff (key x) k).0 t) d.0
