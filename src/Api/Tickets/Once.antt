-- ===== src/Api/Tickets/Once.antt =====
-- internal/api/handlers_media.go: a download ticket is good for one download.
use ialbum.Base.{
  ℕ, ◌≡◌, refl, Bool, true, ◌&&◌, List, [], ◌∷◌, map, none, some, arith, Distinct, NotIn,
  Option-cases, some_inj, Bool-cases, inl, inr, ltb, false, sym, ◌∙◌,
}
use mathlib.Core.Path.{subst}
use ialbum.Text.{Text, text_eq}
use ialbum.Text.Laws.{text_eq_iff, text_eq_refl}
use ialbum.Time.{Time, unix}
use ialbum.Sql.{find, update}
use ialbum.Sql.Laws.{find-passes, find-Elem, find-update, update_none, count_zero, map-update}
use ialbum.Sql.Keys.{count-by_key, find-by_key}
use ialbum.Api.Tickets.{
  Ticket, ok, err, download_ticket_invalid, is_open, is_unused, is_consumable, find_ticket,
  consume_ticket, consume,
}

none_with :
    (hash session : Text) (now : ℕ) (p : Ticket → Bool) (ts : List Ticket)
    → NotIn hash (map (λ u. u.token_hash) ts)
    → find (is_open hash session) (update p (consume now) ts) ≡ none
unfolding find update consume
none_with hash session now p [] n = refl
none_with hash session now p (u ∷ us) n =
    ground (arith, n.0, text_eq_iff u.token_hash hash, none_with hash session now p us n.1)

-- After the first open ticket was consumed, the token opens none, if the hashes are distinct.
none_open :
    (hash session : Text) (now : ℕ) (ts : List Ticket) {t : Ticket}
    → Distinct (map (λ u. u.token_hash) ts)
    → find (is_open hash session) ts ≡ some t
    → find (is_open hash session) (update (λ u. text_eq u.id t.id && is_unused u) (consume now) ts)
      ≡ none
unfolding find update consume
none_open hash session now [] d f = absurd (cc f)
none_open hash session now (u ∷ us) {t = t} d f = elim (Bool-cases (is_open hash session u)) [
  | inl o ↦ rw (← some_inj (rw o at f)) (
      ground (
        arith,
        o,
        text_eq_refl u.id,
        none_with hash session now (λ x. text_eq x.id t.id && is_unused x) us (alone o),
      ))
  | inr o ↦ elim (Bool-cases (text_eq u.id t.id && is_unused u)) [
    | inl c ↦ rw c (ground (arith, none_open hash session now us d.1 (rw o at f)))
    | inr c ↦ rw c (rw o (none_open hash session now us d.1 (rw o at f)))
  ]
]
  where
    alone : is_open hash session u ≡ true → NotIn hash (map (λ x. x.token_hash) us)
    alone o =
        subst (λ h. NotIn h (map (λ x. x.token_hash) us))
          ((text_eq_iff u.token_hash hash).0 (ground (arith, o))) d.0

find_ticket-find :
    (now : Time) (hash session : Text) (ts : List Ticket) {t : Ticket}
    → find_ticket now hash session ts ≡ ok t
    → find (is_open hash session) ts ≡ some t
unfolding find_ticket
find_ticket-find now hash session ts {t = t} h =
    elim (Option-cases (find (is_open hash session) ts)) [
      | inl f ↦ absurd (cc (rw (f, find_ticket) at h))
      | inr (u, f) ↦ elim (Bool-cases (ltb u.expires_at (unix now))) [
        | inl x ↦ absurd (cc (rw x at (rw (f, find_ticket) at h)))
        | inr x ↦ f ∙ cc (rw x at (rw (f, find_ticket) at h))
      ]
    ]

-- The ticket's id is of that row alone.
consume_first :
    (now : Time) (ts : List Ticket) (t : Ticket)
    → Distinct (map (λ u. u.id) ts)
    → find (λ u. text_eq u.id t.id) ts ≡ some t
    → is_unused t ≡ true
    → (consume_ticket now t.id ts).1 ≡ ok tt
unfolding consume_ticket
consume_first now ts t d f e =
    let n = count-by_key (λ u. u.id) is_unused t.id ts d f in rw (n, e) refl

consumed_row :
    (now : Time) (ts : List Ticket) (t : Ticket)
    → find (λ u. text_eq u.id t.id) ts ≡ some t
    → is_unused t ≡ true
    → find (λ u. text_eq u.id t.id) (consume_ticket now t.id ts).0 ≡ some (consume (unix now) t)
unfolding consume_ticket consume
consumed_row now ts t f e =
    find-update (λ u. text_eq u.id t.id) (is_consumable t.id) (consume (unix now)) (λ x. refl) ts
    ∙ rw f (rw (text_eq_refl t.id, e) refl)

-- A ticket that is consumed is not consumed again, and the table stays.
consume_again :
    (now : Time) (id : Text) (ts : List Ticket) {u : Ticket}
    → Distinct (map (λ x. x.id) ts)
    → find (λ x. text_eq x.id id) ts ≡ some u
    → is_unused u ≡ false
    → consume_ticket now id ts ≡ (ts, err download_ticket_invalid)
unfolding consume_ticket
consume_again now id ts d f e =
    let n = count-by_key (λ x. x.id) is_unused id ts d f ∙ rw e in
    rw
      (
        consume_ticket,
        n,
        update_none (is_consumable id) (consume (unix now)) ts (count_zero (is_consumable id) ts n),
      )
      refl

consume-Distinct :
    (now : Time) (id : Text) (ts : List Ticket)
    → Distinct (map (λ x. x.id) ts)
    → Distinct (map (λ x. x.id) (consume_ticket now id ts).0)
unfolding consume_ticket consume
consume-Distinct now id ts d =
    subst Distinct
      (sym (map-update (λ x. x.id) (is_consumable id) (consume (unix now)) (λ x. refl) ts)) d

refused :
    (first later : Time) (hash session : Text) (ts : List Ticket) {t : Ticket}
    → Distinct (map (λ u. u.token_hash) ts)
    → find (is_open hash session) ts ≡ some t
    → find_ticket later hash session (consume_ticket first t.id ts).0 ≡ err download_ticket_invalid
unfolding find_ticket consume_ticket
refused first later hash session ts hashes f =
    rw (find_ticket, none_open hash session (unix first) ts hashes f) refl

-- A ticket is good for one download, also where requests run side by side. The ids of the tickets and
-- the hashes of their tokens are distinct, and two requests have both read the ticket as open before
-- either has written. Then the one that writes first consumes it, the other is refused and changes
-- nothing, and every request that reads the token from then on finds no ticket.
pub take_ticket_once :
    (first second later : Time) (hash session : Text) (ts : List Ticket) {t : Ticket}
    → Distinct (map (λ u. u.id) ts)
    → Distinct (map (λ u. u.token_hash) ts)
    → find_ticket first hash session ts ≡ ok t
    → find_ticket second hash session ts ≡ ok t
    → ((consume_ticket first t.id ts).1 ≡ ok tt)
      × (consume_ticket second t.id (consume_ticket first t.id ts).0
          ≡ ((consume_ticket first t.id ts).0, err download_ticket_invalid))
      × (find_ticket later hash session (consume_ticket first t.id ts).0
          ≡ err download_ticket_invalid)
unfolding consume
take_ticket_once first second later hash session ts {t = t} ids hashes e e' =
    let f = find_ticket-find first hash session ts e in
    let o : is_open hash session t ≡ true = find-passes (is_open hash session) ts f in
    let unused : is_unused t ≡ true = ground (arith, o) in
    let row = find-by_key (λ u. u.id) ts ids (find-Elem (is_open hash session) ts f) in
    (
      consume_first first ts t ids row unused,
      consume_again second t.id (consume_ticket first t.id ts).0
          (consume-Distinct first t.id ts ids) (consumed_row first ts t row unused) refl,
      refused first later hash session ts hashes f,
    )
