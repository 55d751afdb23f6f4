-- ===== src/Sql/Order.antt =====
-- What ORDER BY returns: the same rows, each before those that it does not come after.
use ialbum.Base.{Bool, true, false, List, [], ◌∷◌, ◌≡◌, ◌⊎◌, inl, inr, All, All-imp, Bool-cases}
use ialbum.Sql.{select, insert_sorted, order_by}

module _ {ℓ κ} {A : Type ℓ} (P : A → Type κ) where
  -- What holds of the rows selected holds of every row that passes the test.
  pub All-of_select :
      (p : A → Bool) (xs : List A) → All P (select p xs) → All (λ x. p x ≡ true → P x) xs
  unfolding select
  All-of_select p [] h = tt
  All-of_select p (x ∷ xs) h = elim (Bool-cases (p x)) [
    | inl e ↦ let k : P x × All P (select p xs) = rw e at h in ((λ _. k.0), All-of_select p xs k.1)
    | inr e ↦ ((λ t. absurd (cc (t, e))), All-of_select p xs (rw e at h))
  ]

module _ {ℓ} {A : Type ℓ} where
  pub All-select_test : (p : A → Bool) (xs : List A) → All (λ x. p x ≡ true) (select p xs)
  unfolding select
  All-select_test p [] = tt
  All-select_test p (x ∷ xs) = elim (Bool-cases (p x)) [
    | inl e ↦ rw e (e, All-select_test p xs)
    | inr e ↦ rw e (All-select_test p xs)
  ]

module _ {ℓ κ} {A : Type ℓ} (P : A → Type κ) (le : A → A → Bool) where
  All-insert_sorted : (x : A) (ys : List A) → P x → All P ys → All P (insert_sorted le x ys)
  unfolding insert_sorted
  All-insert_sorted x [] px h = (px, tt)
  All-insert_sorted x (y ∷ ys) px h = elim (Bool-cases (le x y)) [
    | inl e ↦ rw e (px, h)
    | inr e ↦ rw e (h.0, All-insert_sorted x ys px h.1)
  ]

  All-of_insert_sorted : (x : A) (ys : List A) → All P (insert_sorted le x ys) → P x × All P ys
  unfolding insert_sorted
  All-of_insert_sorted x [] h = h
  All-of_insert_sorted x (y ∷ ys) h = elim (Bool-cases (le x y)) [
    | inl e ↦ let k : P x × (P y × All P ys) = rw e at h in k
    | inr e ↦
        let k : P y × All P (insert_sorted le x ys) = rw e at h in
        let r : P x × All P ys = All-of_insert_sorted x ys k.1 in (r.0, (k.0, r.1))
  ]

  pub All-order_by : (xs : List A) → All P xs → All P (order_by le xs)
  unfolding order_by
  All-order_by [] h = h
  All-order_by (x ∷ xs) h = All-insert_sorted x (order_by le xs) h.0 (All-order_by xs h.1)

  pub All-of_order_by : (xs : List A) → All P (order_by le xs) → All P xs
  unfolding order_by
  All-of_order_by [] h = h
  All-of_order_by (x ∷ xs) h =
      let k : P x × All P (order_by le xs) = All-of_insert_sorted x (order_by le xs) h in
      (k.0, All-of_order_by xs k.1)

module _ {ℓ} {A : Type ℓ} (le : A → A → Bool) where
  -- Each row comes before, or ties with, all that follow it.
  abbrev pub Sorted : List A → Type ℓ
  Sorted [] = Unit
  Sorted (x ∷ xs) = All (λ y. le x y ≡ true) xs × Sorted xs

module _ {ℓ} {A : Type ℓ} (le : A → A → Bool)
    (total : (x y : A) → (le x y ≡ true) ⊎ (le y x ≡ true))
    (trans : (x y z : A) → le x y ≡ true → le y z ≡ true → le x z ≡ true) where
  insert_sorted-Sorted : (x : A) (ys : List A) → Sorted le ys → Sorted le (insert_sorted le x ys)
  unfolding insert_sorted
  insert_sorted-Sorted x [] h = (tt, tt)
  insert_sorted-Sorted x (y ∷ ys) h = elim (Bool-cases (le x y)) [
    | inl e ↦ rw e ((e, All-imp (λ z yz. trans x y z e yz) ys h.0), h)
    | inr e ↦
        rw e (
          All-insert_sorted (λ z. le y z ≡ true) le x ys (flip e) h.0,
          insert_sorted-Sorted x ys h.1,
        )
  ]
    where
      flip : le x y ≡ false → le y x ≡ true
      flip e = elim (total x y) [ inl t ↦ absurd (cc (t, e)) | inr t ↦ t ]

  pub order_by-Sorted : (xs : List A) → Sorted le (order_by le xs)
  unfolding order_by
  order_by-Sorted [] = tt
  order_by-Sorted (x ∷ xs) = insert_sorted-Sorted x (order_by le xs) (order_by-Sorted xs)
