-- ===== src/Manager/Tokens.antt =====
-- internal/storage/manager/manager.go: `Provider` for Baidu, whose `SaveToken` is `saveBaiduToken`.
use ialbum.Base.{
  suc, Option, none, Option-cases, inl, inr, ℕ, Bool, true, false, ◌&&◌, List, some, ◌≡◌, refl, ◌∙◌,
}
use ialbum.Text.{Text, codes, text_eq}
use ialbum.Time.{Time}
use ialbum.Sql.{find}
use ialbum.Sql.Laws.{find-update, find-passes}
use ialbum.Storage
use ialbum.Storage.Baidu
use ialbum.Storage.Baidu.{Request, Response, Net, request, adopt}
use ialbum.Storage.Baidu.Calls.{Session}
use ialbum.Storage.Baidu.Keeps.{Keeps, Operation, perform_all, perform_all_keeps}
use ialbum.Manager.{
  ok, baidu, Config, Envelope, Token, baidu_settings, Row, Db, Env, string_value, active_id, has_id,
  is_active,
}
use ialbum.Manager.Connections.{
  envelope_of, with_token, token_of, assign_token, save_token, settings_of, settings_for,
}

module _ (env : Env) (id : Text) (s : Envelope) {W : Type 0} (now : W → Time)
    (serve : Request → W → W × Storage.Result Response)
    (fails : Db × W → Option Storage.Error) where
  -- What the Baidu provider of a connection meets, made from the secret `s`: the tables beside the
  -- rest of the world. `fails` says where Seal or the UPDATE of saveBaiduToken fails; then the rows
  -- are as they were.
  unfoldable pub baidu_net : Net (Db × W)
  unfolding save_token
  baidu_net = record {
    now = λ x. now x.1;
    serve = λ r x. let (w, answer) = serve r x.1 in ((x.0, w), answer);
    save_token = some (λ t x. elim (fails x) [
      | none ↦ ((save_token env (now x.1) id s t x.0, x.1), Storage.ok tt)
      | some e ↦ ((record x.0 { drawn = suc x.0.drawn }, x.1), Storage.err e)
    ]);
  }

-- The row of an active Baidu connection, from which a provider gets this secret and this root.
pub record Stores (env : Env) (id : Text) (s : Envelope) (config : Config) (db : Db) : Type 0 where
  pub row : Row
  pub found : find (active_id id) db.connections ≡ some row
  pub of_baidu : row.kind ≡ baidu
  pub config_read : env.unmarshal_config row.config_json ≡ some config
  pub secret_read : envelope_of env row ≡ ok s

and_left : (x y : Bool) → (x && y) ≡ true → x ≡ true
and_left true y q = refl
and_left false y q = absurd (cc q)

module _ (env : Env)
    (gcm : (nonce p : List ℕ) (a : Text) → env.aead_open nonce (env.aead_seal nonce p a) a ≡ some p)
    (json : (s : Envelope) → env.unmarshal_secret (env.marshal_secret s) ≡ some s) where
  settings_of-Stores :
      (id : Text) (s : Envelope) (config : Config) (db : Db)
      → Stores env id s config db
      → settings_of env id db ≡ ok (settings_for baidu config s)
  unfolding settings_of
  settings_of-Stores id s config db h =
      rw (h.found, settings_of) (rw (h.config_read, h.secret_read, h.of_baidu) refl)

  save_token-Stores :
      (now : Time) (id : Text) (s old : Envelope) (config : Config) (t : Token) (db : Db)
      → Stores env id old config db
      → Stores env id (with_token t s) config (save_token env now id s t db)
  unfolding save_token assign_token envelope_of
  save_token-Stores now id s old config t db h = record {
    row = assign_token env now (with_token t s) db.drawn h.row;
    found =
        find-update (active_id id) (has_id id) (assign_token env now (with_token t s) db.drawn)
          (λ x. refl) db.connections
        ∙ rw (h.found) (
            rw
              (and_left (text_eq h.row.id id) (is_active h.row.removed_at)
                (find-passes (active_id id) db.connections h.found))
              refl);
    of_baidu = h.of_baidu;
    config_read = h.config_read;
    secret_read = rw (h.of_baidu, gcm, json);
  }

  unsaved-Stores :
      (id : Text) (s : Envelope) (config : Config) (db : Db)
      → Stores env id s config db
      → Stores env id s config (record db { drawn = suc db.drawn })
  unsaved-Stores id s config db h = record {
    row = h.row;
    found = h.found;
    of_baidu = h.of_baidu;
    config_read = h.config_read;
    secret_read = h.secret_read;
  }

  module _ (id : Text) (s : Envelope) (config : Config) {W : Type 0} (now : W → Time)
      (serve : Request → W → W × Storage.Result Response) (fails : Db × W → Option Storage.Error)
      (benv : Baidu.Env) where
    InStep : Session (Db × W) → Type 0
    InStep x = Stores env id (with_token x.token s) config x.world.0

    request_keeps :
        (r : Request) → Keeps InStep (request benv (baidu_net env id s now serve fails) r)
    unfolding InStep request baidu_net
    request_keeps r = record { at = λ x h. h }

    adopt_keeps : (t : Token) → Keeps InStep (adopt benv (baidu_net env id s now serve fails) t)
    unfolding InStep adopt baidu_net
    adopt_keeps t = record {
      at = λ x h. elim (Option-cases (fails x.world)) [
        | inl f ↦ rw f (
            rw f
              (save_token-Stores (now x.world.1) id s (with_token x.token s) config t x.world.0 h))
        | inr (e, f) ↦ rw f (rw f (unsaved-Stores id (with_token x.token s) config x.world.0 h))
      ];
    }

  -- While only this provider writes to the connection: after any sequence of its calls, failed ones
  -- included, whatever Baidu answers, and also where a renewed token could not be saved, a provider that is made afresh from the connection has the
  -- keys, the root and the very token that this one holds.
  pub settings_of-perform_all :
      (id : Text) (s : Envelope) (config : Config) (db : Db) {W : Type 0} (now : W → Time)
      (serve : Request → W → W × Storage.Result Response) (fails : Db × W → Option Storage.Error)
      (benv : Baidu.Env) (os : List Operation) (w : W)
      → Stores env id s config db
      → let end =
          perform_all benv
            (baidu_net env id s now serve fails)
            os
            (record { token = token_of s; world = (db, w) }) in
        settings_of env id end.world.0
        ≡ ok (baidu_settings s.app_key s.secret_key (string_value config (codes "root")) end.token)
  unfolding InStep settings_for
  settings_of-perform_all id s config db now serve fails benv os w h =
      settings_of-Stores id _ config _ (
        perform_all_keeps benv (baidu_net env id s now serve fails)
          (InStep id s config now serve fails benv) (request_keeps id s config now serve fails benv)
          (adopt_keeps id s config now serve fails benv) os
          (record { token = token_of s; world = (db, w) }) h)
