-- ===== src/Manager/Flows/Steps.antt =====
-- The calls of the manager, in any order, keep every secret readable. A turn of a device flow may work
-- on a row of the flow that was read before other calls.
use ialbum.Base.{
  ℕ, suc, ◌*◌, Bool, true, false, ◌&&◌, ◌||◌, List, [], ◌∷◌, inl, inr, some, is_some, ◌≡◌, refl,
  ltb, ◌==◌, Bool-cases, All, All-append,
}
use ialbum.Text.{Text, trim_space, is_empty}
use ialbum.Time.{Time, second}
use ialbum.Sql.{find, count}
use ialbum.Sql.Laws.{All-update, All-select, find-passes, All-find}
use ialbum.Sql.Order.{All-select_test}
use ialbum.Storage
use ialbum.Manager.{
  Result, Result-cases, ok, err, ◌>>=◌, or_error, baidu, Config, Envelope, Token, Row, FlowRow, Db,
  Env, open_sealed, aad_of, is_active, has_id, active_id, Settings, FlowStatus, flow_error,
  authorized, Connection,
}
use ialbum.Manager.Connections.{
  envelope_of, save_token, CreateInput, create, test, UpdateInput, change, delete, settings_of,
  settings_for,
}
use ialbum.Manager.Flows.{
  Answer, Authorization, Poll, turn_flow, start_flow, cancel_flow, finish_flow, on_flow,
  assign_status, assign_poll, open_flow, authorize, close_flow, flow_input, new_flow, insert_flow,
  is_pending, has_flow, secret_aad, code_aad,
}
use ialbum.Manager.Flows.Answers.{Effect, waits_on, is_over, makes, apply_answer_cases}
use ialbum.Manager.Readable.{
  Readable, IsReadable, FlowReadable, validate_rows, validate_flows, validate_secrets,
}
use ialbum.Manager.Readable.Calls.{
  create-IsReadable, test-IsReadable, change-IsReadable, delete-IsReadable, save_token-IsReadable,
}

and_right : (x y : Bool) → (x && y) ≡ true → y ≡ true
and_right true y q = q
and_right false y q = absurd (cc q)

module _ (env : Env) where
  pub data Step : Db → Db → Type 0 where
    create_step : (now : Time) (input : CreateInput) (db : Db) → Step db (create env now input db).0
    change_step :
        (now : Time) (id : Text) (input : UpdateInput) (db : Db)
        → Step db (change env now id input db).0
    test_step : (now : Time) (id : Text) (db : Db) → Step db (test env now id db).0
    delete_step : (now : Time) (id : Text) (db : Db) → Step db (delete now id db).0
    -- `SaveToken` of a provider that was made from a row of Baidu.
    renew_step :
        (now : Time) (id : Text) (s : Envelope) (t : Token) (db : Db) (r : Row)
        → find (has_id id) db.connections ≡ some r
        → r.kind ≡ baidu
        → Step db (save_token env now id s t db)
    start_step :
        (now : Time) (name app_key secret_key root : Text) (started : Storage.Result Authorization)
        (db : Db)
        → Step db (start_flow env now name app_key secret_key root started db).0
    turn_step :
        (now : Time) (poll : Poll) (f : FlowRow) (db : Db) → Step db (turn_flow env now poll f db).0
    cancel_step : (now : Time) (id : Text) (db : Db) → Step db (cancel_flow now id db).0

  pub data Reach : Db → Db → Type 0 where
    stop : (db : Db) → Reach db db
    go_on : {a b c : Db} → Step a b → Reach b c → Reach a c

  on_flow-IsReadable :
      (id : Text) (g : FlowRow → FlowRow) (db : Db)
      → ((f : FlowRow) → FlowReadable env f → FlowReadable env (g f))
      → IsReadable env db
      → IsReadable env (on_flow id g db)
  unfolding on_flow
  on_flow-IsReadable id g db keep h = record {
    rows = h.rows;
    pending_flows =
        All-update (FlowReadable env) (has_flow id) g (λ f e k. keep f k) db.flows h.pending_flows;
  }

  finish_flow-IsReadable :
      (id : Text) (s : FlowStatus) (message : Text) (now : Time) (db : Db)
      → is_pending s ≡ false
      → IsReadable env db
      → IsReadable env (finish_flow id s message now db)
  unfolding finish_flow assign_status
  finish_flow-IsReadable id s message now db over h =
      on_flow-IsReadable id (assign_status s message now) db (λ f k p. absurd (cc (p, over))) h

  poll_flow-IsReadable :
      (id : Text) (interval : ℕ) (now : Time) (db : Db)
      → IsReadable env db
      → IsReadable env (on_flow id (assign_poll interval now) db)
  unfolding assign_poll open_flow
  poll_flow-IsReadable id interval now db h =
      on_flow-IsReadable id (assign_poll interval now) db (λ f k. k) h

  close_flow-IsReadable :
      (id : Text) (now : Time) (r : Db × Result Connection)
      → IsReadable env r.0
      → IsReadable env (close_flow env id now r)
  unfolding close_flow
  close_flow-IsReadable id now (db, err e) h =
      finish_flow-IsReadable id flow_error (env.error_text e) now db refl h
  close_flow-IsReadable id now (db, ok c) h =
      finish_flow-IsReadable id authorized c.id now db refl h

  module _
      (gcm : (nonce p : List ℕ) (a : Text)
        → env.aead_open nonce (env.aead_seal nonce p a) a ≡ some p)
      (json : (s : Envelope) → env.unmarshal_secret (env.marshal_secret s) ≡ some s)
      (config_json : (c : Config) (j : Text)
        → env.marshal_config c ≡ some j
        → (d : Config) × (env.unmarshal_config j ≡ some d)) where
    effect-IsReadable :
        (now : Time) (f : FlowRow) (secret : Text) (a : Answer) (db : Db) {e : Db}
        → Effect env now f secret a db e
        → IsReadable env db
        → IsReadable env e
    unfolding authorize
    effect-IsReadable now f secret a db (waits_on interval) h =
        poll_flow-IsReadable f.id interval now db h
    effect-IsReadable now f secret a db (is_over s message over ne) h =
        finish_flow-IsReadable f.id s message now db over h
    effect-IsReadable now f secret a db makes h =
        close_flow-IsReadable f.id now (create env now (flow_input env f secret a.token) db)
          (create-IsReadable env gcm json config_json now (flow_input env f secret a.token) db h)

    turn_flow-IsReadable :
        (now : Time) (poll : Poll) (f : FlowRow) (db : Db)
        → IsReadable env db
        → IsReadable env (turn_flow env now poll f db).0
    unfolding turn_flow
    turn_flow-IsReadable now poll f db h = elim (Bool-cases (ltb (f.expires_at * second) now)) [
      | inl v ↦ rw (turn_flow, v) (on_flow-IsReadable f.id _ db (λ g k p. absurd (cc p)) h)
      | inr v ↦ elim (Result-cases (open_flow env f)) [
        | inr (e, w) ↦ rw (turn_flow, v, w) h
        | inl ((secret, code), w) ↦
            rw (turn_flow, v, w)
              (effect-IsReadable now f secret _ db (apply_answer_cases env now f secret _ db) h)
      ]
    ]

    insert_flow-IsReadable :
        (now : Time) (name app_key secret_key root : Text) (a : Authorization) (db : Db)
        → IsReadable env db
        → IsReadable env (insert_flow env now name app_key secret_key root a db)
    unfolding insert_flow new_flow open_flow
    insert_flow-IsReadable now name app_key secret_key root a db h = record {
      rows = h.rows;
      pending_flows = All-append (FlowReadable env) db.flows (_ ∷ []) h.pending_flows (
        (λ p. (
          (env.text (env.bytes secret_key), env.text (env.bytes a.device_code)),
          rw (
            gcm (env.nonce db.drawn) (env.bytes secret_key) (secret_aad (env.new_id db.issued)),
            gcm (env.nonce (suc db.drawn)) (env.bytes a.device_code)
                (code_aad (env.new_id db.issued)),
          ),
        )),
        tt,
      );
    }

    start_flow-IsReadable :
        (now : Time) (name app_key secret_key root : Text) (started : Storage.Result Authorization)
        (db : Db)
        → IsReadable env db
        → IsReadable env (start_flow env now name app_key secret_key root started db).0
    unfolding start_flow
    start_flow-IsReadable now name app_key secret_key root started db h =
        elim (Bool-cases (is_empty (trim_space name) || is_empty app_key || is_empty secret_key)) [
          | inl v ↦ rw (start_flow, v) h
          | inr v ↦ elim (Storage.Result-cases started) [
            | inr (e, w) ↦ rw (start_flow, v, w) h
            | inl (a, w) ↦
                elim (Bool-cases (is_some (find (has_flow (env.new_id db.issued)) db.flows))) [
                  | inl u ↦
                      rw (start_flow, v, w, u)
                        (record { rows = h.rows; pending_flows = h.pending_flows })
                  | inr u ↦
                      rw (start_flow, v, w, u)
                        (insert_flow-IsReadable now name app_key secret_key root a db h)
                ]
          ]
        ]

    cancel_flow-IsReadable :
        (now : Time) (id : Text) (db : Db)
        → IsReadable env db
        → IsReadable env (cancel_flow now id db).0
    unfolding cancel_flow
    cancel_flow-IsReadable now id db h =
        elim (Bool-cases (count (λ f. has_flow id f && is_pending f.status) db.flows == 0)) [
          | inl v ↦ rw (cancel_flow, v) h
          | inr v ↦
              rw (cancel_flow, v)
                (record {
                  rows = h.rows;
                  pending_flows =
                      All-update (FlowReadable env) (λ f. has_flow id f && is_pending f.status) _
                        (λ f e k p. absurd (cc p)) db.flows h.pending_flows;
                })
        ]

    Step-IsReadable : {a b : Db} → Step a b → IsReadable env a → IsReadable env b
    Step-IsReadable (create_step now input db) h =
        create-IsReadable env gcm json config_json now input db h
    Step-IsReadable (change_step now id input db) h =
        change-IsReadable env gcm json config_json now id input db h
    Step-IsReadable (test_step now id db) h = test-IsReadable env gcm json config_json now id db h
    Step-IsReadable (delete_step now id db) h =
        delete-IsReadable env gcm json config_json now id db h
    Step-IsReadable (renew_step now id s t db r e k) h =
        save_token-IsReadable env gcm json config_json now id s t db h e k
    Step-IsReadable (start_step now name app_key secret_key root started db) h =
        start_flow-IsReadable now name app_key secret_key root started db h
    Step-IsReadable (turn_step now poll f db) h = turn_flow-IsReadable now poll f db h
    Step-IsReadable (cancel_step now id db) h = cancel_flow-IsReadable now id db h

    Reach-IsReadable : {a b : Db} → Reach a b → IsReadable env a → IsReadable env b
    Reach-IsReadable (stop db) h = h
    Reach-IsReadable (go_on s r) h = Reach-IsReadable r (Step-IsReadable s h)

    validate_rows_ok :
        (rs : List Row)
        → All (Readable env) rs
        → All (λ r. is_active r.removed_at ≡ true) rs
        → validate_rows env rs ≡ ok tt
    unfolding validate_rows envelope_of
    validate_rows_ok [] h a = refl
    validate_rows_ok (r ∷ rs) h a =
        elim (Result-cases
          (open_sealed env r.secret_ciphertext r.secret_nonce (aad_of r.id r.kind))) [
            | inl (p, v) ↦ rw (validate_rows, v, ◌>>=◌) (validate_rows_ok rs h.1 a.1)
            | inr (e, v) ↦ absurd (cc (rw (envelope_of, v, ◌>>=◌) at ((h.0 a.0).0.1)))
          ]

    validate_flows_ok :
        (fs : List FlowRow)
        → All (FlowReadable env) fs
        → All (λ f. is_pending f.status ≡ true) fs
        → validate_flows env fs ≡ ok tt
    unfolding validate_flows open_flow
    validate_flows_ok [] h a = refl
    validate_flows_ok (f ∷ fs) h a =
        elim (Result-cases (open_sealed env f.secret_ciphertext f.secret_nonce (secret_aad f.id))) [
          | inr (e, v) ↦ absurd (cc (rw (open_flow, v, ◌>>=◌) at ((h.0 a.0).1)))
          | inl (p, v) ↦
              elim (Result-cases (open_sealed env f.code_ciphertext f.code_nonce (code_aad f.id))) [
                | inr (e, w) ↦ absurd (cc (rw (open_flow, v, ◌>>=◌, w) at ((h.0 a.0).1)))
                | inl (q, w) ↦ rw (validate_flows, v, ◌>>=◌, w) (validate_flows_ok fs h.1 a.1)
              ]
        ]

    settings_there :
        (id : Text) (rs : List Row) (b : Db) {r : Row}
        → All (Readable env) rs
        → b.connections ≡ rs
        → find (active_id id) rs ≡ some r
        → (s : Settings) × (settings_of env id b ≡ ok s)
    unfolding settings_of
    settings_there id rs b {r = r} h same e =
        let ((s, v), (c, w)) =
          All-find (Readable env) (active_id id) rs e h
            (and_right (has_id id r) (is_active r.removed_at) (find-passes (active_id id) rs e)) in
        (settings_for r.kind c s, rw (settings_of, same, e, or_error, ◌>>=◌, w, v))

    -- After any calls and turns of device flows, on tables in which every secret can be read, a start of
    -- the program finds every secret readable, and the settings of each connection are there for its
    -- provider. AES-GCM opens what it has sealed, and JSON reads what it has written.
    pub validate_secrets-Reach :
        {a b : Db}
        → IsReadable env a
        → Reach a b
        → (validate_secrets env b ≡ ok tt)
          × ((id : Text) (r : Row)
              → find (active_id id) b.connections ≡ some r
              → (s : Settings) × (settings_of env id b ≡ ok s))
    unfolding validate_secrets settings_of
    validate_secrets-Reach {b = b} h r =
        let k : IsReadable env b = Reach-IsReadable r h in
        (
          rw
              (
                validate_secrets,
                validate_rows_ok _
                    (All-select (Readable env) (λ x. is_active x.removed_at) b.connections k.rows.1)
                    (All-select_test (λ x. is_active x.removed_at) b.connections),
                ◌>>=◌,
              )
              (validate_flows_ok _
                (All-select (FlowReadable env) (λ f. is_pending f.status) b.flows k.pending_flows)
                (All-select_test (λ f. is_pending f.status) b.flows)),
          λ id x e. settings_there id b.connections b k.rows.1 refl e,
        )
