-- ===== src/Storage/Baidu/Runs.antt =====
-- The calls of the Baidu provider that succeed, taken apart.
use ialbum.Base.{◌≡◌, refl, ap}
use ialbum.Storage.{Result, ok, err}
use ialbum.Storage.Baidu.Calls.{Session, Call, pure, lift, ◌>>=◌, ◌>>◌, proceed}

-- The call succeeds with this result and leaves this.
abbrev pub Runs : {W A : Type 0} → Call W A → Session W → Session W → A → Type 0
Runs m s s' a = m s ≡ (s', ok a)

module _ {W A : Type 0} where
  pub pure-Runs :
      (a : A) (s : Session W) {s' : Session W} {b : A} → Runs (pure a) s s' b → (s ≡ s') × (a ≡ b)
  unfolding pure
  pure-Runs a s h = (cc h, cc h)

  pub lift-Runs :
      (r : Result A) (s : Session W) {s' : Session W} {a : A}
      → Runs (lift r) s s' a
      → (s ≡ s') × (r ≡ ok a)
  unfolding lift
  lift-Runs r s h = (cc h, cc h)

module _ {W A B : Type 0} where
  proceed_ok :
      (f : A → Call W B) (x : Session W × Result A) {s' : Session W} {b : B}
      → proceed f x.0 x.1 ≡ (s', ok b)
      → (t : Session W) × (a : A) × (x ≡ (t, ok a)) × (f a t ≡ (s', ok b))
  proceed_ok f (t, ok a) h = (t, a, refl, h)
  proceed_ok f (t, err e) h = absurd (cc h)

  pub bind-Runs :
      (m : Call W A) (f : A → Call W B) (s : Session W) {s' : Session W} {b : B}
      → Runs (m >>= f) s s' b
      → (t : Session W) × (a : A) × Runs m s t a × Runs (f a) t s' b
  unfolding ◌>>=◌
  bind-Runs m f s h = proceed_ok f (m s) h

  pub bind_lift-Runs :
      (r : Result A) (f : A → Call W B) (s : Session W) {s' : Session W} {b : B}
      → Runs (lift r >>= f) s s' b
      → (a : A) × (r ≡ ok a) × Runs (f a) s s' b
  unfolding ◌>>=◌ lift
  bind_lift-Runs (ok a) f s h = (a, refl, h)
  bind_lift-Runs (err e) f s h = absurd (cc h)

  pub then-Runs :
      (m : Call W A) (n : Call W B) (s : Session W) {s' : Session W} {b : B}
      → Runs (m >> n) s s' b
      → (t : Session W) × (a : A) × Runs m s t a × Runs n t s' b
  unfolding ◌>>◌
  then-Runs m n s h = bind-Runs m (λ a. n) s h

-- The calls that succeed, put together.
module _ {W A B : Type 0} where
  pub bind-eq :
      (m : Call W A) (f : A → Call W B) (s : Session W) {t : Session W} {a : A}
      → Runs m s t a
      → (m >>= f) s ≡ f a t
  unfolding ◌>>=◌
  bind-eq m f s h = rw (h, ◌>>=◌)

  pub then-eq :
      (m : Call W A) (n : Call W B) (s : Session W) {t : Session W} {a : A}
      → Runs m s t a
      → (m >> n) s ≡ n t
  unfolding ◌>>◌
  then-eq m n s h = bind-eq m (λ a. n) s h

  pub bind_lift-eq :
      (r : Result A) (f : A → Call W B) (s : Session W) {a : A}
      → r ≡ ok a
      → (lift r >>= f) s ≡ f a s
  unfolding lift
  bind_lift-eq r f s h = bind-eq (lift r) f s (ap (λ z. (s, z)) h)

  pub then_lift-eq :
      (r : Result A) (n : Call W B) (s : Session W) {a : A} → r ≡ ok a → (lift r >> n) s ≡ n s
  unfolding lift
  then_lift-eq r n s h = then-eq (lift r) n s (ap (λ z. (s, z)) h)
