-- ===== src/Storage/Baidu/Blocks/Notes.antt =====
-- internal/storage/baidu/baidu.go: the calls over a network that notes the requests.

use ialbum.Base.{
  ℕ, ◌*◌, List, [], ◌∷◌, ◌++◌, append_assoc, none, some, inl, inr, ◌≡◌, refl, sym, ap, ◌∙◌, All,
  All-append, Option-cases,
}
use ialbum.Text.{Text}
use ialbum.Storage.{Result, Result-cases, ok}
use ialbum.Manager.{Token}
use ialbum.Storage.Baidu.Calls.{Session}
use ialbum.Storage.Baidu.{
  Request, refresh, upload_part, create_dir, Response, Env, Net, mebibyte, read_answer, request,
  json_request, adopt,
}
use ialbum.Storage.Baidu.Reads.{check}
use ialbum.Storage.Baidu.Upload.{upload_block}
use ialbum.Storage.Baidu.Runs.{Runs, bind-Runs, bind_lift-Runs, lift-Runs}
use ialbum.Storage.Baidu.Keeps.{Keeps}

-- A network that notes the requests.
unfoldable pub noting : {W : Type 0} → Net W → Net (List Request × W)
noting net = record {
  now = λ x. net.now x.1;
  serve = λ r x. let (w, answer) = net.serve r x.1 in ((x.0 ++ r ∷ [], w), answer);
  save_token = elim net.save_token [
    | none ↦ none
    | some save ↦ some (λ t x. let (w, saved) = save t x.1 in ((x.0, w), saved))
  ];
}

-- Requests for a token, and for a directory.
abbrev pub IsPreliminary : Request → Type 0
IsPreliminary (refresh t k s) = Unit
IsPreliminary (create_dir t p) = Unit
IsPreliminary r = ⊥

module _ (env : Env) {W : Type 0} (net : Net W) where
  unfoldable pub log_of : Session (List Request × W) → List Request
  log_of s = s.world.0

  request-log :
      (r : Request) (s : Session (List Request × W))
      → log_of (request env (noting net) r s).0 ≡ log_of s ++ r ∷ []
  unfolding request noting log_of
  request-log r s = refl

  -- A request whose answer is read.
  pub json_request-Runs :
      {A : Type 0} (read : List ℕ → Result A) (r : Request) (s : Session (List Request × W))
      {t : Session (List Request × W)} {a : A}
      → Runs (json_request env (noting net) read r) s t a
      → (log_of t ≡ log_of s ++ r ∷ [])
        × ((x : Response) × ((net.serve r s.world.1).1 ≡ ok x)
            × (read_answer (8 * mebibyte) read x ≡ ok a))
  unfolding json_request log_of noting request
  json_request-Runs read r s h =
      let (u, x, q, k) = bind-Runs (request env (noting net) r) _ s h in
      let (same, e) = lift-Runs (read_answer (8 * mebibyte) read x) u k in
      (
        sym (ap log_of same) ∙ sym (ap (λ p. log_of p.0) q) ∙ request-log r s,
        (x, answered r s q, e),
      )
    where
      answered :
          (r : Request) (s : Session (List Request × W)) {u : Session (List Request × W)}
          {x : Response}
          → Runs (request env (noting net) r) s u x
          → (net.serve r s.world.1).1 ≡ ok x
      answered r s q = ap (λ p. p.1) q

  -- So far only preliminary requests were sent.
  unfoldable pub Prelude : List Request → Session (List Request × W) → Type 0
  Prelude log s = (before : List Request) × All IsPreliminary before × (log_of s ≡ log ++ before)

  pub preliminary_keeps :
      (log : List Request) (r : Request)
      → IsPreliminary r
      → Keeps (Prelude log) (request env (noting net) r)
  unfolding Prelude
  preliminary_keeps log r i = record {
    at = λ s (before, all, e). (
      before ++ r ∷ [],
      All-append IsPreliminary before (r ∷ []) all (i, tt),
      request-log r s ∙ ap (λ z. z ++ r ∷ []) e ∙ append_assoc log before (r ∷ []),
    );
  }

  adopt-log :
      (t : Token) (s : Session (List Request × W))
      → log_of (adopt env (noting net) t s).0 ≡ log_of s
  unfolding adopt noting log_of
  adopt-log t s = elim (Option-cases net.save_token) [
    | inl v ↦ rw (v, adopt, noting) refl
    | inr (save, v) ↦ elim (Result-cases (save t s.world.1).1) [
      | inl (u, e) ↦ rw (v, adopt, noting) (rw e refl)
      | inr (x, e) ↦ rw (v, adopt, noting) (rw e refl)
    ]
  ]

  pub adopt_keeps :
      (log : List Request) (t : Token) → Keeps (Prelude log) (adopt env (noting net) t)
  unfolding Prelude
  adopt_keeps log t = record { at = λ s (before, all, e). (before, all, adopt-log t s ∙ e) }

  pub upload_block-Runs :
      (token path upload_id : Text) (i : ℕ) (b : List ℕ) (s : Session (List Request × W))
      {t : Session (List Request × W)} {u : Unit {0}}
      → Runs (upload_block env (noting net) token path upload_id i b) s t u
      → log_of t ≡ log_of s ++ upload_part token path upload_id i b ∷ []
  unfolding upload_block
  upload_block-Runs token path upload_id i b s h =
      let r = upload_part token path upload_id i b in
      let (v, x, q, k) = bind-Runs (request env (noting net) r) _ s h in
      let (n, e, l) = bind_lift-Runs (read_answer mebibyte env.read_errno x) _ v k in
      let (same, f) = lift-Runs (check n) v l in
      sym (ap log_of same) ∙ sym (ap (λ p. log_of p.0) q) ∙ request-log r s
