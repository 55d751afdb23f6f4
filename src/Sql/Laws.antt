-- ===== src/Sql/Laws.antt =====
-- Laws of the statements: what an update keeps, what a query returns.
use ialbum.Base.{
  length, some_inj, suc, ◌<◌, Bool, true, false, List, [], ◌∷◌, ◌++◌, map, ◌≡◌, ◌≢◌, refl, sym, ap,
  ◌∙◌, arith, if◌then◌else◌, Bool-cases, inl, inr, none, some, All, Elem, here, there, NotIn,
  Distinct,
}
use mathlib.Core.Option
use mathlib.Core.Path.{subst}
use ialbum.Sql.{update, count, select, find}

module _ {ℓ κ} {A : Type ℓ} (P : A → Type κ) where
  -- An update keeps what its assignment keeps of each row that it matches.
  pub All-update :
      (p : A → Bool) (f : A → A)
      → ((x : A) → p x ≡ true → P x → P (f x))
      → (xs : List A) → All P xs
      → All P (update p f xs)
  unfolding update
  All-update p f keep [] h = h
  All-update p f keep (x ∷ xs) h = elim (Bool-cases (p x)) [
    | inl e ↦ rw e (keep x e h.0, All-update p f keep xs h.1)
    | inr e ↦ rw e (h.0, All-update p f keep xs h.1)
  ]

  pub All-select : (p : A → Bool) (xs : List A) → All P xs → All P (select p xs)
  unfolding select
  All-select p [] h = h
  All-select p (x ∷ xs) h = elim (Bool-cases (p x)) [
    | inl e ↦ rw e (h.0, All-select p xs h.1)
    | inr e ↦ rw e (All-select p xs h.1)
  ]

  pub All-find : (p : A → Bool) (xs : List A) {x : A} → find p xs ≡ some x → All P xs → P x
  unfolding find
  All-find p [] e h = absurd (cc e)
  All-find p (y ∷ ys) {x = x} e h = elim (Bool-cases (p y)) [
    | inl t ↦ subst P (some_inj (rw t at e)) h.0
    | inr t ↦ All-find p ys (rw t at e) h.1
  ]

module _ {ℓ} {A : Type ℓ} where
  -- The row found passes the test.
  pub find-passes : (p : A → Bool) (xs : List A) {x : A} → find p xs ≡ some x → p x ≡ true
  unfolding find
  find-passes p [] e = absurd (cc e)
  find-passes p (y ∷ ys) {x = x} e = elim (Bool-cases (p y)) [
    | inl t ↦ subst (λ z. p z ≡ true) (some_inj (rw t at e)) t
    | inr t ↦ find-passes p ys (rw t at e)
  ]

  pub find-Elem : (p : A → Bool) (xs : List A) {x : A} → find p xs ≡ some x → Elem x xs
  unfolding find
  find-Elem p [] e = absurd (cc e)
  find-Elem p (y ∷ ys) {x = x} e = elim (Bool-cases (p y)) [
    | inl t ↦ here (sym (some_inj (rw t at e)))
    | inr t ↦ there (find-Elem p ys (rw t at e))
  ]

  -- Nothing is found only where no row passes.
  pub find-none : (p : A → Bool) (xs : List A) → find p xs ≡ none → All (λ x. p x ≡ false) xs
  unfolding find
  find-none p [] e = tt
  find-none p (y ∷ ys) e = elim (Bool-cases (p y)) [
    | inl t ↦ absurd (cc (rw t at e))
    | inr t ↦ (t, find-none p ys (rw t at e))
  ]

  -- An update that keeps the test applies to the row found.
  pub find-update :
      (q p : A → Bool) (f : A → A)
      → ((x : A) → q (f x) ≡ q x)
      → (xs : List A)
      → find q (update p f xs) ≡ Option.map (λ x. if p x then f x else x) (find q xs)
  unfolding find update
  find-update q p f keep [] = refl
  find-update q p f keep (x ∷ xs) = ground (arith, keep x, find-update q p f keep xs)

  -- A query does not see an update of rows that it leaves out before and after.
  pub select-update_apart :
      (q p : A → Bool) (f : A → A)
      → ((x : A) → p x ≡ true → (q x ≡ false) × (q (f x) ≡ false))
      → (xs : List A) → select q (update p f xs) ≡ select q xs
  unfolding select update
  select-update_apart q p f apart [] = refl
  select-update_apart q p f apart (x ∷ xs) = elim (Bool-cases (p x)) [
    | inl t ↦ rw t (rw ((apart x t).0) (rw ((apart x t).1) (select-update_apart q p f apart xs)))
    | inr t ↦ rw (t, select-update_apart q p f apart xs)
  ]

  -- An update that matches no row changes nothing.
  pub update_none :
      (p : A → Bool) (f : A → A) (xs : List A) → All (λ x. p x ≡ false) xs → update p f xs ≡ xs
  unfolding update
  update_none p f [] h = refl
  update_none p f (x ∷ xs) h = rw (h.0, update_none p f xs h.1)

  pub count_none : (p : A → Bool) (xs : List A) → All (λ x. p x ≡ false) xs → count p xs ≡ 0
  unfolding count
  count_none p [] h = refl
  count_none p (x ∷ xs) h = rw (h.0) (count_none p xs h.1)

  pub count_zero : (p : A → Bool) (xs : List A) → count p xs ≡ 0 → All (λ x. p x ≡ false) xs
  unfolding count
  count_zero p [] e = tt
  count_zero p (x ∷ xs) e = elim (Bool-cases (p x)) [
    | inl t ↦ absurd (omega (arith, rw t at e))
    | inr t ↦ (t, count_zero p xs (rw t at e))
  ]

  pub count_pos : (p : A → Bool) (xs : List A) {x : A} → find p xs ≡ some x → 0 < count p xs
  unfolding count find
  count_pos p [] e = absurd (cc e)
  count_pos p (y ∷ ys) {x = x} e = ground (arith, count_pos p ys {x = x})

  -- An assignment that keeps a column keeps the column of the table.
  pub map-update {κ} :
      {B : Type κ} (key : A → B) (p : A → Bool) (f : A → A)
      → ((x : A) → key (f x) ≡ key x)
      → (xs : List A) → map key (update p f xs) ≡ map key xs
  unfolding update
  map-update key p f keep [] = refl
  map-update key p f keep (x ∷ xs) = elim (Bool-cases (p x)) [
    | inl e ↦ rw (e, keep x, map-update key p f keep xs)
    | inr e ↦ rw (e, map-update key p f keep xs)
  ]

module _ {ℓ} {A : Type ℓ} where
  -- An insert hides no row.
  pub find-append :
      (p : A → Bool) (xs ys : List A) {x : A} → find p xs ≡ some x → find p (xs ++ ys) ≡ some x
  unfolding find
  find-append p [] ys e = absurd (cc e)
  find-append p (y ∷ xs) ys e = elim (Bool-cases (p y)) [
    | inl t ↦ rw t (rw t at e)
    | inr t ↦ rw t (find-append p xs ys (rw t at e))
  ]

  pub NotIn-select {κ} :
      {B : Type κ} (key : A → B) (b : B) (p : A → Bool) (xs : List A)
      → NotIn b (map key xs)
      → NotIn b (map key (select p xs))
  unfolding select
  NotIn-select key b p [] h = tt
  NotIn-select key b p (x ∷ xs) h = elim (Bool-cases (p x)) [
    | inl e ↦ rw e (h.0, NotIn-select key b p xs h.1)
    | inr e ↦ rw e (NotIn-select key b p xs h.1)
  ]

  pub Distinct-select {κ} :
      {B : Type κ} (key : A → B) (p : A → Bool) (xs : List A)
      → Distinct (map key xs)
      → Distinct (map key (select p xs))
  unfolding select
  Distinct-select key p [] h = tt
  Distinct-select key p (x ∷ xs) h = elim (Bool-cases (p x)) [
    | inl e ↦ rw e (NotIn-select key (key x) p xs h.0, Distinct-select key p xs h.1)
    | inr e ↦ rw e (Distinct-select key p xs h.1)
  ]

  pub Elem-select :
      (p : A → Bool) (xs : List A) {x : A} → Elem x xs → p x ≡ true → Elem x (select p xs)
  unfolding select
  Elem-select p [] el t = elim el [ ]
  Elem-select p (y ∷ ys) {x = x} (here q) t = rw (sym (ap p q) ∙ t) (here q)
  Elem-select p (y ∷ ys) {x = x} (there el) t = elim (Bool-cases (p y)) [
    | inl e ↦ rw e (there (Elem-select p ys el t))
    | inr e ↦ rw e (Elem-select p ys el t)
  ]

  elements_ne {κ} :
      {B : Type κ} (key : A → B) (y : A) (ys : List A) {x : A}
      → NotIn (key y) (map key ys)
      → Elem x ys
      → key y ≢ key x
  elements_ne key y [] n el q = elim el [ ]
  elements_ne key y (z ∷ zs) n (here e) q = n.0 (sym (ap key e) ∙ sym q)
  elements_ne key y (z ∷ zs) n (there el) q = elements_ne key y zs n.1 el q

  -- Where keys are distinct, a row that fails the test has its key in no row that passes.
  pub NotIn-select_fails {κ} :
      {B : Type κ} (key : A → B) (p : A → Bool) (xs : List A) {x : A}
      → Distinct (map key xs)
      → Elem x xs
      → p x ≡ false
      → NotIn (key x) (map key (select p xs))
  unfolding select
  NotIn-select_fails key p [] d el f = elim el [ ]
  NotIn-select_fails key p (y ∷ ys) {x = x} d (here q) f = rw (sym (ap p q) ∙ f) (
      subst (λ z. NotIn (key z) (map key (select p ys))) (sym q)
        (NotIn-select key (key y) p ys d.0))
  NotIn-select_fails key p (y ∷ ys) {x = x} d (there el) f = elim (Bool-cases (p y)) [
    | inl e ↦ rw e (λ q. elements_ne key y ys d.0 el q, NotIn-select_fails key p ys d.1 el f)
    | inr e ↦ rw e (NotIn-select_fails key p ys d.1 el f)
  ]

  pub find-append_none :
      (p : A → Bool) (xs ys : List A) → All (λ x. p x ≡ false) xs → find p (xs ++ ys) ≡ find p ys
  unfolding find
  find-append_none p [] ys h = refl
  find-append_none p (x ∷ xs) ys h = rw (h.0, find-append_none p xs ys h.1)

  pub length-update : (p : A → Bool) (f : A → A) (xs : List A) → length (update p f xs) ≡ length xs
  unfolding update
  length-update p f [] = refl
  length-update p f (x ∷ xs) = ap suc (length-update p f xs)

module _ {ℓ κ} {A : Type ℓ} (P : A → Type κ) where
  -- A property that the assignment gives, and that the rows left alone have.
  pub All-update-All :
      (p : A → Bool) (f : A → A)
      → ((x : A) → p x ≡ true → P (f x))
      → ((x : A) → p x ≡ false → P x)
      → (xs : List A) → All P (update p f xs)
  unfolding update
  All-update-All p f hit miss [] = tt
  All-update-All p f hit miss (x ∷ xs) = elim (Bool-cases (p x)) [
    | inl e ↦ rw e (hit x e, All-update-All p f hit miss xs)
    | inr e ↦ rw e (miss x e, All-update-All p f hit miss xs)
  ]

module _ {ℓ} {A : Type ℓ} where
  pub update_same : (p : A → Bool) (xs : List A) → update p (λ x. x) xs ≡ xs
  unfolding update
  update_same p [] = refl
  update_same p (x ∷ xs) = elim (Bool-cases (p x)) [
    | inl e ↦ rw (e, update_same p xs)
    | inr e ↦ rw (e, update_same p xs)
  ]
