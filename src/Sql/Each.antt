-- ===== src/Sql/Each.antt =====
-- A loop over rows that were read before, with one UPDATE by primary key for each.
use mathlib.Core.Path.{subst}
use ialbum.Base.{
  List, [], ◌∷◌, map, some, ◌≡◌, sym, ap, ◌∙◌, Elem, here, there, NotIn, Distinct, if◌then◌else◌,
}
use ialbum.Text.{Text, text_eq}
use ialbum.Text.Laws.{text_eq_refl, text_ne}
use ialbum.Sql.{update, find}
use ialbum.Sql.Laws.{find-update}
use ialbum.Sql.Keys.{has, NotIn-Elem}

module _ {ℓ} {A : Type ℓ} (key : A → Text) (g : A → A → A) where
  unfoldable pub each : List A → List A → List A
  each [] t = t
  each (m ∷ ms) t = each ms (update (has key (key m)) (g m) t)

  module _ (keeps : (m x : A) → key (g m x) ≡ key x) where
    find-one :
        (k : Text) (m : A) (t : List A) {x : A}
        → find (has key k) t ≡ some x
        → find (has key k) (update (has key (key m)) (g m) t)
          ≡ some (if text_eq (key x) (key m) then g m x else x)
    find-one k m t e =
        find-update (has key k) (has key (key m)) (g m) (λ y. ap (λ i. text_eq i k) (keeps m y)) t
        ∙ rw e

    -- A row that is not among those read keeps its value.
    pub find-each_other :
        (k : Text) (rows t : List A) {x : A}
        → key x ≡ k
        → NotIn k (map key rows)
        → find (has key k) t ≡ some x
        → find (has key k) (each rows t) ≡ some x
    unfolding each
    find-each_other k [] t kx n e = e
    find-each_other k (m ∷ ms) t {x = x} kx n e =
        find-each_other k ms _ kx n.1
          (find-one k m t e ∙ rw (text_ne (key x) (key m) (λ q. n.0 (sym q ∙ kx))))

    -- A row that was read is assigned to once.
    pub find-each :
        (rows t : List A) {m x : A}
        → Distinct (map key rows)
        → Elem m rows
        → key x ≡ key m
        → find (has key (key m)) t ≡ some x
        → find (has key (key m)) (each rows t) ≡ some (g m x)
    unfolding each
    find-each [] t d el kx e = elim el [ ]
    find-each (r ∷ rs) t {m = m} {x = x} d (here q) kx e = rw (← q) (
        find-each_other (key m) rs _ (keeps m x ∙ kx)
          (subst (λ z. NotIn (key z) (map key rs)) (sym q) d.0)
          (find-one (key m) m t e ∙ rw (kx, text_eq_refl (key m))))
    find-each (r ∷ rs) t {m = m} {x = x} d (there el) kx e = find-each rs _ d.1 el kx (
        find-one (key m) r t e
        ∙ rw (text_ne (key x) (key r) (λ q. NotIn-Elem key (key r) rs d.0 el (sym kx ∙ q))))
