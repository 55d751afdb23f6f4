-- ===== src/Manager/Readable/Calls.antt =====
-- Each change of a connection keeps the secrets readable.
use ialbum.Base.{
  ℕ, false, not, List, [], ◌∷◌, ◌++◌, map, inl, inr, Option, none, some, ◌≡◌, refl, ap, ◌==◌,
  Bool-cases, Option-cases, All, All-append, NotIn, Distinct,
}
use ialbum.Base.{Distinct-snoc}
use ialbum.Text.{Text, trim_space}
use ialbum.Text.Laws.{ne-of_test}
use ialbum.Time.{Time}
use ialbum.Sql.{find, insert, count}
use ialbum.Sql.Laws.{find-none, find-Elem}
use ialbum.Sql.Keys.{find-by_key}
use ialbum.Manager.{
  Result, Result-cases, ok, err, ◌>>=◌, or_error, or_else, Kind, local, webdav, baidu, Config,
  Envelope, Token, Row, Db, Env, has_id, active_id,
}
use ialbum.Manager.Connections.{
  envelope_of, save_token, save_for, save_renewed, with_token, check, checked, set_status, provider,
  failure, new_row, insert_row, new_envelope, CreateInput, create, recheck, test, UpdateInput,
  prepare, store_change, assign_change, change, remove_row, bound_to, delete, name_ok, new_name,
}
use ialbum.Manager.Readable.{Readable, IsReadable, Rows-update, set_status-Rows, save_token-Rows}

module _ (env : Env)
    (gcm : (nonce p : List ℕ) (a : Text) → env.aead_open nonce (env.aead_seal nonce p a) a ≡ some p)
    (json : (s : Envelope) → env.unmarshal_secret (env.marshal_secret s) ≡ some s)
    (config_json : (c : Config) (j : Text)
      → env.marshal_config c ≡ some j
      → (d : Config) × (env.unmarshal_config j ≡ some d)) where
  pub save_token-IsReadable :
      (now : Time) (id : Text) (s : Envelope) (t : Token) (db : Db) {r : Row}
      → IsReadable env db
      → find (has_id id) db.connections ≡ some r
      → r.kind ≡ baidu
      → IsReadable env (save_token env now id s t db)
  unfolding save_token
  save_token-IsReadable now id s t db h e k = record {
    rows = save_token-Rows env gcm json now id (with_token t s) db.drawn db.connections h.rows e k;
    pending_flows = h.pending_flows;
  }

  -- The row with the id, found as an active one.
  by_id :
      (id : Text) (rs : List Row) {r : Row}
      → Distinct (map (λ x. x.id) rs)
      → find (active_id id) rs ≡ some r
      → find (has_id r.id) rs ≡ some r
  by_id id rs d e = find-by_key (λ x. x.id) rs d (find-Elem (active_id id) rs e)

  save_for-IsReadable :
      (now : Time) (id : Text) (t : Option Token) (db : Db)
      → IsReadable env db
      → IsReadable env (save_for env now id t db)
  unfolding save_for
  save_for-IsReadable now id t db h = elim (Option-cases (find (active_id id) db.connections)) [
    | inl e ↦ rw (save_for, e) h
    | inr (r, e) ↦ elim (Result-cases (envelope_of env r)) [
      | inr (x, v) ↦ rw (save_for, e, v) h
      | inl (s, v) ↦ rw (save_for, e, v) (renewed r s t e)
    ]
  ]
    where
      renewed :
          (r : Row) (s : Envelope) (o : Option Token)
          → find (active_id id) db.connections ≡ some r
          → IsReadable env (save_renewed env now r s o db)
      renewed r s none e = h
      renewed r s (some tok) e = kinds r.kind refl
        where
          kinds :
              (k : Kind)
              → r.kind ≡ k
              → IsReadable env
                  (elim k [ local ↦ db | webdav ↦ db | baidu ↦ save_token env now r.id s tok db ])
          kinds local q = h
          kinds webdav q = h
          kinds baidu q =
              save_token-IsReadable now r.id s tok db h (by_id id db.connections h.rows.0 e) q

  pub checked-IsReadable :
      (now : Time) (id : Text) (db : Db)
      → IsReadable env db
      → IsReadable env (checked env now id db).0
  unfolding checked check set_status
  checked-IsReadable now id db h = elim (Result-cases (provider env id db)) [
    | inr (x, v) ↦ rw (checked, check, v) (status db (err x) h)
    | inl (s, v) ↦
        rw (checked, check, v)
          (status (save_for env now id (env.validate s).0 db) (failure (env.validate s).1)
            (save_for-IsReadable now id (env.validate s).0 db h))
  ]
    where
      status :
          (d : Db) (o : Result (Unit {0}))
          → IsReadable env d
          → IsReadable env (set_status env now id (d, o))
      status d o k = record {
        rows = set_status-Rows env now o id d.connections k.rows;
        pending_flows = k.pending_flows;
      }

  new_id-NotIn :
      (id : Text) (rs : List Row)
      → All (λ r. has_id id r ≡ false) rs
      → NotIn id (map (λ r. r.id) rs)
  new_id-NotIn id [] h = tt
  new_id-NotIn id (r ∷ rs) h = (ne-of_test r.id id h.0, new_id-NotIn id rs h.1)

  map-insert :
      (r : Row) (rs : List Row) → map (λ x. x.id) (insert r rs) ≡ map (λ x. x.id) rs ++ r.id ∷ []
  map-insert r [] = refl
  map-insert r (x ∷ rs) = ap (λ z. x.id ∷ z) (map-insert r rs)

  new_row-Readable :
      (now : Time) (id name : Text) (k : Kind) (j : Text) (s : Envelope) (n : ℕ) {c : Config}
      → env.marshal_config c ≡ some j
      → Readable env (new_row env now id name k j s n)
  unfolding new_row envelope_of
  new_row-Readable now id name k j s n {c = c} e a = ((s, rw (gcm, json)), config_json c j e)

  insert_row-IsReadable :
      (now : Time) (id name : Text) (k : Kind) (j : Text) (s : Envelope) (db : Db) {c : Config}
      → env.marshal_config c ≡ some j
      → find (has_id id) db.connections ≡ none
      → IsReadable env db
      → IsReadable env (insert_row env now id name k j s db)
  unfolding insert_row new_row
  insert_row-IsReadable now id name k j s db e free h = record {
    rows = (
      rw map-insert (
          Distinct-snoc (map (λ x. x.id) db.connections) id
            (new_id-NotIn id db.connections (find-none (has_id id) db.connections free)) h.rows.0),
      All-append (Readable env) db.connections (_ ∷ []) h.rows.1
          (new_row-Readable now id name k j s db.drawn e, tt),
    );
    pending_flows = h.pending_flows;
  }

  pub create-IsReadable :
      (now : Time) (input : CreateInput) (db : Db)
      → IsReadable env db
      → IsReadable env (create env now input db).0
  unfolding create recheck
  create-IsReadable now input db h = elim (Bool-cases (not (name_ok (trim_space input.name)))) [
    | inl v ↦ rw (create, v) h
    | inr v ↦ elim (Option-cases input.kind) [
      | inl w ↦ rw (create, v, w) h
      | inr (k, w) ↦ elim (Option-cases (env.marshal_config input.config)) [
        | inl u ↦ rw (create, v, w, u) (record { rows = h.rows; pending_flows = h.pending_flows })
        | inr (j, u) ↦ elim (Option-cases (find (has_id (env.new_id db.issued)) db.connections)) [
          | inr (x, f) ↦
              rw (create, v, w, u, f) (record { rows = h.rows; pending_flows = h.pending_flows })
          | inl f ↦
              rw (create, v, w, u, f, recheck)
                (checked-IsReadable now (env.new_id db.issued) _ (
                  insert_row-IsReadable now (env.new_id db.issued) (trim_space input.name) k j
                    (new_envelope env input.secrets) db u f h))
        ]
      ]
    ]
  ]

  pub test-IsReadable :
      (now : Time) (id : Text) (db : Db) → IsReadable env db → IsReadable env (test env now id db).0
  unfolding test
  test-IsReadable now id db h = checked-IsReadable now id db h

  store_change-IsReadable :
      (now : Time) (id name j : Text) (s : Envelope) (db : Db) {c : Config}
      → env.marshal_config c ≡ some j
      → IsReadable env db
      → IsReadable env (store_change env now id (name, j, s) db)
  unfolding store_change assign_change envelope_of
  store_change-IsReadable now id name j s db {c = c} e h = record {
    rows =
        Rows-update env (active_id id) (assign_change env now name j s db.drawn) (λ r. refl)
          (λ r v k a. ((s, rw (gcm, json)), config_json c j e)) db.connections h.rows;
    pending_flows = h.pending_flows;
  }

  -- What Update writes is of a configuration that has a text.
  prepare_done :
      (input : UpdateInput) (r : Row) {name j : Text} {s : Envelope}
      → prepare env input r ≡ ok (name, j, s)
      → (c : Config) × (env.marshal_config c ≡ some j)
  unfolding prepare
  prepare_done input r {j = j} e = elim (Result-cases (new_name input.name r.name)) [
    | inr (x, v) ↦ absurd (cc (rw (prepare, v, ◌>>=◌) at e))
    | inl (n, v) ↦
        elim (Option-cases (
          env.marshal_config
            (or_else input.config (or_else (env.unmarshal_config r.config_json) [])))) [
              | inl w ↦ absurd (cc (rw (prepare, v, ◌>>=◌, w, or_error) at e))
              | inr (text, w) ↦ elim (Result-cases (envelope_of env r)) [
                | inr (x, u) ↦ absurd (cc (rw (prepare, v, ◌>>=◌, w, or_error, u) at e))
                | inl (s, u) ↦ (
                  or_else input.config (or_else (env.unmarshal_config r.config_json) []),
                  cc (w, rw (prepare, v, ◌>>=◌, w, or_error, u) at e),
                )
              ]
            ]
  ]

  pub change-IsReadable :
      (now : Time) (id : Text) (input : UpdateInput) (db : Db)
      → IsReadable env db
      → IsReadable env (change env now id input db).0
  unfolding change
  change-IsReadable now id input db h = elim (Option-cases (find (active_id id) db.connections)) [
    | inl v ↦ rw (change, v) h
    | inr (r, v) ↦ elim (Result-cases (prepare env input r)) [
      | inr (x, w) ↦ rw (change, v, w) h
      | inl ((name, j, s), w) ↦
          let (c, e) = prepare_done input r w in
          rw (change, v, w)
            (test-IsReadable now id _ (store_change-IsReadable now id name j s db e h))
    ]
  ]

  pub delete-IsReadable :
      (now : Time) (id : Text) (db : Db) → IsReadable env db → IsReadable env (delete now id db).0
  unfolding delete remove_row
  delete-IsReadable now id db h =
      elim (Bool-cases (not (count (bound_to id db.albums) db.bindings == 0))) [
        | inl v ↦ rw (delete, v) h
        | inr v ↦ elim (Bool-cases (count (active_id id) db.connections == 0)) [
          | inl w ↦ rw (delete, v, w) h
          | inr w ↦
              rw (delete, v, w)
                (record {
                  rows =
                      Rows-update env (active_id id) (remove_row now) (λ r. refl)
                        (λ r e k a. absurd (cc a)) db.connections h.rows;
                  pending_flows = h.pending_flows;
                })
        ]
      ]
