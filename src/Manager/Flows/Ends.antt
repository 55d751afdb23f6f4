-- ===== src/Manager/Flows/Ends.antt =====
-- GetBaiduDeviceFlow, which calls itself, ends.
use ialbum.Base.{
  ℕ, zero, suc, ◌+◌, ◌*◌, true, false, not, inl, inr, Option, some, is_some, ◌≡◌, refl, sym, ap,
  ◌∙◌, arith, ltb, if◌then◌else◌, Bool-cases, Option-cases,
}
use ialbum.Text.{Text, text_eq}
use ialbum.Text.Laws.{text_eq_refl}
use ialbum.Time.{Time, second}
use ialbum.Sql.{find}
use ialbum.Sql.Laws.{find-update}
use ialbum.Manager.{
  Result, Result-cases, ok, err, Db, Env, FlowRow, FlowStatus, expired, flow_error, authorized,
  Token, Connection,
}
use ialbum.Manager.Connections.{
  create, CreateInput, save_for, save_token, checked, check, set_status, recheck, insert_row,
  provider,
}
use mathlib.Core.Path.{subst}
use ialbum.Manager.{has_id}
use ialbum.Manager.Connections.{name_ok}
use ialbum.Text.{trim_space}
use ialbum.Time.{unix}
use ialbum.Manager.Flows.Answers.{Effect, waits_on, is_over, makes, apply_answer_cases}
use ialbum.Manager.Flows.{
  Answer, Poll, DeviceFlow, get_flow, waits, turn_flow, on_flow, assign_poll, assign_status,
  finish_flow, authorize, close_flow, has_flow, is_pending, open_flow, flow_input, shown,
}

-- The row of a flow, with the time at which it expires.
abbrev HasExpiry : Text → ℕ → Db → Type 0
HasExpiry id t db = (f : FlowRow) × (find (has_flow id) db.flows ≡ some f) × (f.expires_at ≡ t)

module _ (env : Env) (id : Text) (t : ℕ) where
  on_flow-HasExpiry :
      (k : Text) (g : FlowRow → FlowRow) (db : Db)
      → ((f : FlowRow) → (g f).id ≡ f.id)
      → ((f : FlowRow) → (g f).expires_at ≡ f.expires_at)
      → HasExpiry id t db
      → HasExpiry id t (on_flow k g db)
  unfolding on_flow
  on_flow-HasExpiry k g db i x (f, e, q) = (
    if has_flow k f then g f else f,
    find-update (has_flow id) (has_flow k) g (λ y. ap (λ z. text_eq z id) (i y)) db.flows ∙ rw e,
    (elim (Bool-cases (has_flow k f)) [ inl v ↦ rw v (x f ∙ q) | inr v ↦ rw v q ]),
  )

  save_for-flows :
      (now : Time) (k : Text) (o : Option Token) (db : Db)
      → (save_for env now k o db).flows ≡ db.flows
  unfolding save_for save_token
  save_for-flows now k o db = ground arith

  checked-flows : (now : Time) (k : Text) (db : Db) → (checked env now k db).0.flows ≡ db.flows
  unfolding checked check set_status
  checked-flows now k db = elim (Result-cases (provider env k db)) [
    | inr (x, v) ↦ rw (checked, check, v)
    | inl (s, v) ↦ rw (checked, check, v) (save_for-flows now k (env.validate s).0 db)
  ]

  -- `Create` touches no flow.
  create-flows :
      (now : Time) (input : CreateInput) (db : Db) → (create env now input db).0.flows ≡ db.flows
  unfolding create recheck insert_row
  create-flows now input db = elim (Bool-cases (not (name_ok (trim_space input.name)))) [
    | inl v ↦ rw (create, v)
    | inr v ↦ elim (Option-cases input.kind) [
      | inl w ↦ rw (create, v, w)
      | inr (k, w) ↦ elim (Option-cases (env.marshal_config input.config)) [
        | inl u ↦ rw (create, v, w, u)
        | inr (j, u) ↦
            elim (Bool-cases (is_some (find (has_id (env.new_id db.issued)) db.connections))) [
              | inl f ↦ rw (create, v, w, u, f)
              | inr f ↦ rw (create, v, w, u, f, recheck) (checked-flows now _ _)
            ]
      ]
    ]
  ]

  finish-HasExpiry :
      (k : Text) (s : FlowStatus) (message : Text) (now : Time) (db : Db)
      → HasExpiry id t db
      → HasExpiry id t (finish_flow k s message now db)
  unfolding finish_flow assign_status
  finish-HasExpiry k s message now db =
      on_flow-HasExpiry k (assign_status s message now) db (λ f. refl) (λ f. refl)

  close-HasExpiry :
      (k : Text) (now : Time) (r : Db × Result Connection)
      → HasExpiry id t r.0
      → HasExpiry id t (close_flow env k now r)
  unfolding close_flow
  close-HasExpiry k now (db, err e) h = finish-HasExpiry k flow_error (env.error_text e) now db h
  close-HasExpiry k now (db, ok c) h = finish-HasExpiry k authorized c.id now db h

  effect-HasExpiry :
      (now : Time) (f : FlowRow) (secret : Text) (a : Answer) (db : Db) {e : Db}
      → Effect env now f secret a db e
      → HasExpiry id t db
      → HasExpiry id t e
  unfolding authorize assign_poll
  effect-HasExpiry now f secret a db (waits_on interval) h =
      on_flow-HasExpiry f.id (assign_poll interval now) db (λ g. refl) (λ g. refl) h
  effect-HasExpiry now f secret a db (is_over s message over ne) h =
      finish-HasExpiry f.id s message now db h
  effect-HasExpiry now f secret a db makes h =
      close-HasExpiry f.id now (create env now (flow_input env f secret a.token) db) (
        subst (λ z. (g : FlowRow) × (find (has_flow id) z ≡ some g) × (g.expires_at ≡ t))
          (sym (create-flows now (flow_input env f secret a.token) db)) h)

  turn-HasExpiry :
      (now : Time) (poll : Poll) (f : FlowRow) (db : Db)
      → HasExpiry id t db
      → HasExpiry id t (turn_flow env now poll f db).0
  unfolding turn_flow
  turn-HasExpiry now poll f db h = elim (Bool-cases (ltb (f.expires_at * second) now)) [
    | inl v ↦ rw (turn_flow, v) (on_flow-HasExpiry f.id _ db (λ g. refl) (λ g. refl) h)
    | inr v ↦ elim (Result-cases (open_flow env f)) [
      | inr (e, w) ↦ rw (turn_flow, v, w) h
      | inl ((secret, code), w) ↦
          rw (turn_flow, v, w)
            (effect-HasExpiry now f secret _ db (apply_answer_cases env now f secret _ db) h)
    ]
  ]

  -- A flow that is past its time is over behind the next turn.
  expires :
      (now : Time) (poll : Poll) (f : FlowRow) (db : Db)
      → find (has_flow id) db.flows ≡ some f
      → ltb (f.expires_at * second) now ≡ true
      → (g : FlowRow) × (find (has_flow id) (turn_flow env now poll f db).0.flows ≡ some g)
        × (is_pending g.status ≡ false)
  unfolding turn_flow on_flow
  expires now poll f db e late =
      rw (turn_flow, late)
        (
          record f { status = expired; updated_at = unix now },
          find-update (has_flow id) (has_flow f.id) _ (λ g. refl) db.flows
              ∙ rw (e, text_eq_refl f.id),
          refl,
        )

  module _ (clock : ℕ → Time) (polls : ℕ → Poll) where
    -- The flow is over, so the call returns it.
    over_returns :
        (fuel turn : ℕ) (db : Db) (f : FlowRow)
        → find (has_flow id) db.flows ≡ some f
        → is_pending f.status ≡ false
        → (r : Db × Result DeviceFlow) × (get_flow env (suc fuel) clock polls turn id db ≡ some r)
    unfolding get_flow
    over_returns fuel turn db f e over =
        let stays : waits (clock turn) f ≡ true = ground arith in
        ((db, ok (shown f)), rw (get_flow, e, stays))

    abbrev Returns : ℕ → ℕ → Db → Type 0
    Returns fuel turn db =
        (r : Db × Result DeviceFlow) × (get_flow env fuel clock polls turn id db ≡ some r)

    one_turn :
        (fuel turn : ℕ) (db : Db) (f : FlowRow)
        → find (has_flow id) db.flows ≡ some f
        → Returns fuel (suc turn) (turn_flow env (clock turn) (polls turn) f db).0
        → Returns (suc fuel) turn db
    unfolding get_flow
    one_turn fuel turn db f e rest = elim (Bool-cases (waits (clock turn) f)) [
      | inl v ↦ ((db, ok (shown f)), rw (get_flow, e, v))
      | inr v ↦ elim (Result-cases (turn_flow env (clock turn) (polls turn) f db).1) [
        | inr (x, w) ↦
            (((turn_flow env (clock turn) (polls turn) f db).0, err x), rw (get_flow, e, v, w))
        | inl (u, w) ↦ (rest.0, rw (get_flow, e, v, w) (rest.1))
      ]
    ]

    ends_by :
        (n turn : ℕ) (db : Db)
        → HasExpiry id t db
        → ltb (t * second) (clock (turn + n)) ≡ true
        → Returns (suc (suc n)) turn db
    ends_by zero turn db (f, e, q) late =
        let now : turn + 0 ≡ turn = omega arith in
        let (g, found, over) =
          expires (clock turn) (polls turn) f db e
            (rw q (subst (λ z. ltb (t * second) (clock z) ≡ true) now late)) in
        one_turn 1 turn db f e (over_returns 0 (suc turn) _ g found over)
    ends_by (suc n) turn db (f, e, q) late =
        let later : turn + suc n ≡ suc turn + n = omega arith in
        one_turn (suc (suc n)) turn db f e (
          ends_by n (suc turn) _ (turn-HasExpiry (clock turn) (polls turn) f db (f, e, q))
            (subst (λ z. ltb (t * second) (clock z) ≡ true) later late))

-- GetBaiduDeviceFlow returns, whatever Baidu answers, once the clock is past the time at which the flow
-- expires: two turns are enough where the clock is past it at the first, and one more for each turn
-- until then.
pub get_flow_returns :
    (env : Env) (clock : ℕ → Time) (polls : ℕ → Poll) (id : Text) (n : ℕ) (db : Db) {f : FlowRow}
    → find (has_flow id) db.flows ≡ some f
    → ltb (f.expires_at * second) (clock n) ≡ true
    → (r : Db × Result DeviceFlow) × (get_flow env (suc (suc n)) clock polls 0 id db ≡ some r)
get_flow_returns env clock polls id n db {f = f} e late =
    ends_by env id f.expires_at clock polls n 0 db (f, e, refl)
      (subst (λ z. ltb (f.expires_at * second) (clock z) ≡ true) (omega arith) late)
