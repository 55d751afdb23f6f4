-- ===== src/Manager/Readable.antt =====
-- ValidateSecrets of internal/storage/manager/manager.go: every secret that is in use can be read.
pub mod Calls
use ialbum.Base.{
  ℕ, zero, suc, ◌+◌, ◌-◌, ◌*◌, ◌/◌, ◌%◌, ◌≤◌, ◌<◌, Bool, true, false, not, ◌&&◌, ◌||◌, List, [],
  ◌∷◌, ◌++◌, map, append-nil, append_assoc, ◌≢◌, ◌↔◌, ◌⊎◌, inl, inr, Option, none, some, is_some,
  some_inj, ◌≡◌, refl, sym, ap, ◌∙◌, arith, ltb, leb, ◌==◌, if◌then◌else◌, Bool-cases, Option-cases,
  ==_iff, length, take, drop, length-append, length-take_le, All, All-append, All-take, All-imp,
  All-zip, All-Elem, Elem, here, there, NotIn, Distinct,
}
use mathlib.Core.Path.{subst}
use ialbum.Text.{Text, text_eq}
use ialbum.Text.Laws.{text_eq_iff}
use ialbum.Time.{Time}
use ialbum.Sql.{find, update, insert, select}
use ialbum.Sql.Laws.{All-update, find-none, find-passes, find-Elem, map-update}
use ialbum.Sql.Keys.{NotIn-Elem}
use ialbum.Manager.{
  Error, Result, Result-cases, ok, err, ◌>>=◌, or_error, Kind, local, webdav, baidu, Config,
  Envelope, Token, Row, FlowRow, Db, Env, seal, open_sealed, aad_of, is_active, has_id, active_id,
  undecryptable,
}
use ialbum.Manager.Connections.{
  envelope_of, assign_token, save_token, save_for, save_renewed, with_token, check, checked,
  set_status, assign_status, provider, failure, new_row, insert_row,
}
use ialbum.Manager.Flows.{open_flow, is_pending, secret_aad, code_aad}

unfoldable pub validate_rows : Env → List Row → Result (Unit {0})
unfolding aad_of
validate_rows env [] = ok tt
validate_rows env (r ∷ rs) =
    open_sealed env r.secret_ciphertext r.secret_nonce (aad_of r.id r.kind) >>= λ p.
    validate_rows env rs

unfoldable pub validate_flows : Env → List FlowRow → Result (Unit {0})
validate_flows env [] = ok tt
validate_flows env (f ∷ fs) =
    open_sealed env f.secret_ciphertext f.secret_nonce (secret_aad f.id) >>= λ p.
    open_sealed env f.code_ciphertext f.code_nonce (code_aad f.id) >>= λ q. validate_flows env fs

-- ValidateSecrets
unfoldable pub validate_secrets : Env → Db → Result (Unit {0})
unfolding validate_rows validate_flows
validate_secrets env db =
    validate_rows env (select (λ r. is_active r.removed_at) db.connections) >>= λ u.
    validate_flows env (select (λ f. is_pending f.status) db.flows)

module _ (env : Env) where
  -- The secrets and the settings of a connection that is not removed.
  abbrev pub Readable : Row → Type 0
  Readable r =
      is_active r.removed_at ≡ true
      → ((s : Envelope) × (envelope_of env r ≡ ok s))
        × ((c : Config) × (env.unmarshal_config r.config_json ≡ some c))

  -- The two secrets of a flow that waits.
  abbrev pub FlowReadable : FlowRow → Type 0
  FlowReadable f = is_pending f.status ≡ true → (p : Text × Text) × (open_flow env f ≡ ok p)

  abbrev pub Rows : List Row → Type 0
  Rows rs = Distinct (map (λ r. r.id) rs) × All Readable rs

  pub record IsReadable (db : Db) : Type 0 where
    pub rows : Rows db.connections
    pub pending_flows : All FlowReadable db.flows

  pub Rows-update :
      (p : Row → Bool) (f : Row → Row)
      → ((r : Row) → (f r).id ≡ r.id)
      → ((r : Row) → p r ≡ true → Readable r → Readable (f r))
      → (rs : List Row) → Rows rs
      → Rows (update p f rs)
  Rows-update p f keeps good rs (d, a) = (
    subst Distinct (sym (map-update (λ r. r.id) p f keeps rs)) d,
    All-update Readable p f good rs a,
  )

  -- All rows with an id are of one kind.
  abbrev OfKind : Text → Kind → List Row → Type 0
  OfKind id k = All (λ r. r.id ≡ id → r.kind ≡ k)

  OfKind-absent :
      (id : Text) (k : Kind) (rs : List Row) → NotIn id (map (λ r. r.id) rs) → OfKind id k rs
  OfKind-absent id k [] h = tt
  OfKind-absent id k (r ∷ rs) h = ((λ e. absurd (h.0 e)), OfKind-absent id k rs h.1)

  OfKind-Elem :
      (rs : List Row) (r : Row) → Distinct (map (λ x. x.id) rs) → Elem r rs → OfKind r.id r.kind rs
  OfKind-Elem [] r d el = elim el [ ]
  OfKind-Elem (x ∷ rs) r d (here q) = (
    (λ e. ap (λ z. z.kind) (sym q)),
    OfKind-absent r.id r.kind rs (subst (λ z. NotIn z.id (map (λ y. y.id) rs)) (sym q) d.0),
  )
  OfKind-Elem (x ∷ rs) r d (there m) =
      ((λ e. absurd (NotIn-Elem (λ z. z.id) x.id rs d.0 m (sym e))), OfKind-Elem rs r d.1 m)

  -- A new status says nothing of the secrets.
  set_status-Rows :
      (now : Time) (o : Result (Unit {0})) (id : Text) (rs : List Row)
      → Rows rs
      → Rows (update (has_id id) (assign_status env now o) rs)
  unfolding assign_status envelope_of
  set_status-Rows now o id rs =
      Rows-update (has_id id) (assign_status env now o) (λ r. refl) (λ r e h. h) rs

module _ (env : Env)
    (gcm : (nonce p : List ℕ) (a : Text) → env.aead_open nonce (env.aead_seal nonce p a) a ≡ some p)
    (json : (s : Envelope) → env.unmarshal_secret (env.marshal_secret s) ≡ some s) where
  -- A token that is saved is read again.
  assign_token-Readable :
      (now : Time) (s : Envelope) (n : ℕ) (r : Row)
      → r.kind ≡ baidu
      → Readable env r
      → Readable env (assign_token env now s n r)
  unfolding assign_token envelope_of
  assign_token-Readable now s n r k h a = ((s, rw (k, gcm, json)), (h a).1)

  pub save_token-Rows :
      (now : Time) (id : Text) (s : Envelope) (n : ℕ) (rs : List Row) {r : Row}
      → Rows env rs
      → find (has_id id) rs ≡ some r
      → r.kind ≡ baidu
      → Rows env (update (has_id id) (assign_token env now s n) rs)
  unfolding assign_token
  save_token-Rows now id s n rs {r = r} (d, a) e k = (
    subst Distinct
        (sym (map-update (λ x. x.id) (has_id id) (assign_token env now s n) (λ x. refl) rs)) d,
    All-imp (λ x h. h.0) _
        (All-update Both (has_id id) (assign_token env now s n) keep rs (
          All-zip (Readable env) (λ x. x.id ≡ r.id → x.kind ≡ r.kind) rs a
            (OfKind-Elem env rs r d (find-Elem (has_id id) rs e)))),
  )
    where
      Both : Row → Type 0
      Both x = Readable env x × (x.id ≡ r.id → x.kind ≡ r.kind)

      same : (x : Row) → has_id id x ≡ true → x.id ≡ r.id
      same x h =
          (text_eq_iff x.id id).0 h ∙ sym ((text_eq_iff r.id id).0 (find-passes (has_id id) rs e))

      keep : (x : Row) → has_id id x ≡ true → Both x → Both (assign_token env now s n x)
      keep x h (w, kind) = (assign_token-Readable now s n x (kind (same x h) ∙ k) w, kind)
