-- ===== src/Jobs/Turn.antt =====
-- internal/jobs/queue.go, `worker`: the row of the job that is taken, and how `finish` leaves it.
use ialbum.Base.{
  Bool, not, Option, ℕ, List, [], ◌∷◌, none, some, ◌≢◌, inl, inr, ◌≡◌, refl, sym, ap, ◌∙◌, ◌==◌,
  arith, Bool-cases, Option-cases,
}
use ialbum.Text.{Text}
use ialbum.Text.Laws.{text_eq_iff, text_eq_refl}
use ialbum.Time.{Time, unix}
use ialbum.Sql.{find, select, update}
use ialbum.Sql.Laws.{find-update, find-passes}
use ialbum.Jobs.{
  Job, succeeded, Failure, Table, Result, ok, has_id, candidates, acquire, get, claim_first, claim,
  finish, succeed, after_failure, put_back,
}

get-find : (id : Text) (t : Table) {j : Job} → get id t ≡ ok j → find (has_id id) t ≡ some j
unfolding get
get-find id t h = elim (Option-cases (find (has_id id) t)) [
  | inl e ↦ absurd (cc (rw (e, get) at h))
  | inr (x, e) ↦ rw e (cc (rw (e, get) at h))
]

taken-find :
    (id : Text) (t : Table) {t' : Table} {j : Job}
    → ◌≡◌ {A = Table × Result Job} (t, get id t) (t', ok j)
    → find (has_id j.id) t' ≡ some j
taken-find id t {t' = t'} {j = j} q =
    let f : find (has_id id) t ≡ some j = get-find id t (ap (λ p. p.1) q) in
    let same : j.id ≡ id = (text_eq_iff j.id id).0 (find-passes (has_id id) t f) in
    ap (λ i. find (has_id i) t') same ∙ ap (find (has_id id)) (sym (ap (λ p. p.0) q)) ∙ f

claim_first-find :
    (now : Time) (cs : List Job) (t : Table) {t' : Table} {j : Job}
    → claim_first now cs t ≡ (t', ok j)
    → find (has_id j.id) t' ≡ some j
unfolding claim_first
claim_first-find now [] t h = absurd (cc h)
claim_first-find now (c ∷ cs) t h = elim (Bool-cases ((acquire now c.id t).1 == 1)) [
  | inr e ↦ claim_first-find now cs (acquire now c.id t).0 (rw (e, claim_first) at h)
  | inl e ↦ taken-find c.id (acquire now c.id t).0 (rw (e, claim_first) at h)
]

-- A job that is taken stands in the table.
pub claim-find :
    (now : Time) (t : Table) {t' : Table} {j : Job}
    → claim now t ≡ (t', ok j)
    → find (has_id j.id) t' ≡ some j
unfolding claim
claim-find now t h = claim_first-find now (candidates now t) t h

pub find-succeed :
    (now : Time) (jitter : ℕ) (t : Table) (j : Job)
    → find (has_id j.id) t ≡ some j
    → find (has_id j.id) (finish now jitter j none t) ≡ some (succeed (unix now) j)
unfolding finish
find-succeed now jitter t j f =
    find-update (has_id j.id) (has_id j.id) (succeed (unix now)) (λ x. refl) t
    ∙ rw f (rw (text_eq_refl j.id) refl)

-- A job that failed does not stand as one that succeeded.
pub find-put_back :
    (now : Time) (jitter : ℕ) (t : Table) (j : Job) (e : Failure)
    → find (has_id j.id) t ≡ some j
    → (k : Job) × (find (has_id j.id) (finish now jitter j (some e) t) ≡ some k)
      × (k.state ≢ succeeded)
unfolding finish after_failure put_back
find-put_back now jitter t j e f = (
  put_back (unix now) (after_failure now jitter j e) e.message j,
  find-update (has_id j.id) (has_id j.id)
        (put_back (unix now) (after_failure now jitter j e) e.message) (λ x. refl) t
      ∙ rw f (rw (text_eq_refl j.id) refl),
  λ q. ground arith,
)

select-update_others :
    (p : Job → Bool) (f : Job → Job)
    → ((x : Job) → p (f x) ≡ p x)
    → (t : Table) → select (λ j. not (p j)) (update p f t) ≡ select (λ j. not (p j)) t
unfolding select update
select-update_others p f keep [] = refl
select-update_others p f keep (x ∷ t) = ground (arith, keep x, select-update_others p f keep t)

-- `finish` leaves the other rows as they were.
pub select-finish :
    (now : Time) (jitter : ℕ) (j : Job) (failure : Option Failure) (t : Table)
    → select (λ k. not (has_id j.id k)) (finish now jitter j failure t)
      ≡ select (λ k. not (has_id j.id k)) t
unfolding finish put_back
select-finish now jitter j none t = select-update_others (has_id j.id) _ (λ x. refl) t
select-finish now jitter j (some e) t = select-update_others (has_id j.id) _ (λ x. refl) t
