-- ===== src/Storage/Baidu/Blocks/Sent.antt =====
-- internal/storage/baidu/baidu.go: what a `Put` that succeeds has sent.
use mathlib.Core.Path.{subst}
use ialbum.Base.{
  ℕ, suc, ◌*◌, Bool, List, [], ◌∷◌, ◌++◌, map, append-nil, append_assoc, Option, inl, inr, ◌≡◌,
  refl, sym, ap, ◌∙◌, ◌≤◌, ◌<◌, if◌then◌else◌, All, Bool-cases, Option-cases, length, length-append,
  take, drop, arith,
}
use ialbum.Text.{Text}
use ialbum.Storage.{ok, Error, Object}
use ialbum.Storage.Path.{normalize_relative}
use ialbum.Storage.Local.Put.{concat}
use ialbum.Storage.Webdav.{dir_of}
use ialbum.Manager.{Token}
use ialbum.Storage.Baidu.Calls.{ℤ, Session, pure}
use ialbum.Storage.Baidu.{
  Request, precreate, upload_part, create_file, Response, Precreated, Env, Net, remote_path,
  mebibyte, read_answer,
}
use ialbum.Storage.Baidu.Reads.{check}
use ialbum.Storage.Baidu.Upload.{
  Source, block_size, read_block, block_hashes, is_needed, made, opened, upload_block, send_blocks,
  complete, upload, put,
}
use ialbum.Storage.Baidu.Runs.{Runs, bind-Runs, bind_lift-Runs, then-Runs, pure-Runs, lift-Runs}
use ialbum.Storage.Baidu.Keeps.{Keeps-access_token, Keeps-mkdir}
use ialbum.Storage.Baidu.Blocks.{
  IsCut, IsBlocks, block_hashes-IsBlocks, read_block_cases, take-front, drop-front,
}
use ialbum.Storage.Baidu.Blocks.Notes.{
  noting, IsPreliminary, log_of, json_request-Runs, Prelude, preliminary_keeps, adopt_keeps,
  upload_block-Runs,
}
use ialbum.Storage.Baidu.Blocks.Asked.{Parts, parts, parts-Parts}

-- What was sent for a source: its blocks, of which Baidu was told the hashes, and of them those that
-- it asked for.
pub record Sent (env : Env) {W : Type 0} (net : Net W) (source : Source) (path : Text)
    (rename : Bool) (log log' : List Request) : Type 0 where
  pub blocks : List (List ℕ)
  pub of_source : IsBlocks source.content blocks
  pub token : Text
  pub before : List Request
  pub preliminary : All IsPreliminary before
  pub world : W
  pub answer : Response
  pub answered :
      (net.serve (precreate token path source.size (map env.md5 blocks) rename) world).1 ≡ ok answer
  pub pre : Precreated
  pub read : read_answer (8 * mebibyte) env.read_precreated answer ≡ ok pre
  pub uploads : List Request
  pub uploaded : Parts token path pre.upload_id pre.blocks 0 blocks uploads
  pub sent :
      log'
      ≡ log
        ++ (before
            ++ (precreate token path source.size (map env.md5 blocks) rename
                ∷ (uploads
                    ++ (create_file token path source.size pre.upload_id (map env.md5 blocks) rename
                        ∷ []))))

first_block :
    (b : List ℕ) (bs : List (List ℕ)) (content : List ℕ) (ends : Option Error) {x : List ℕ}
    → IsBlocks content (b ∷ bs)
    → read_block content ends ≡ ok x
    → x ≡ b
first_block b bs content ends k h = elim (read_block_cases content ends h) [
  | inl (l, e) ↦
      e
      ∙ sym (ap (take block_size) (k.whole))
      ∙ take-front block_size b (concat bs) (full bs (k.cut) (rw (← k.whole) at l))
  | inr (l, e) ↦ e ∙ sym (k.whole) ∙ short bs (k.cut) (rw (← k.whole) at l)
]
  where
    full :
        (cs : List (List ℕ))
        → IsCut (b ∷ cs)
        → block_size ≤ length (b ++ concat cs)
        → length b ≡ block_size
    full [] c l = omega (arith, c, ap length (append-nil b))
    full (d ∷ ds) c l = c.0

    short :
        (cs : List (List ℕ))
        → IsCut (b ∷ cs)
        → length (b ++ concat cs) < block_size
        → b ++ concat cs ≡ b
    short [] c l = append-nil b
    short (d ∷ ds) c l = absurd (omega (arith, c.0, length-append b (concat (d ∷ ds))))

rest-IsBlocks :
    (b c : List ℕ) (bs : List (List ℕ)) (content : List ℕ)
    → IsBlocks content (b ∷ c ∷ bs)
    → IsBlocks (drop block_size content) (c ∷ bs)
rest-IsBlocks b c bs content k = record {
  whole =
      sym (drop-front block_size b (concat (c ∷ bs)) (k.cut.0)) ∙ ap (drop block_size) (k.whole);
  cut = k.cut.2;
}

module _ (env : Env) {W : Type 0} (net : Net W) (token path upload_id : Text) (needed : List ℤ)
    (ends : Option Error) where
  this : ℕ → List ℕ → List Request
  this i b = if is_needed needed i then upload_part token path upload_id i b ∷ [] else []

  this_block :
      (i : ℕ) (b : List ℕ) (s : Session (List Request × W)) {t : Session (List Request × W)}
      {u : Unit {0}}
      → Runs
          (if is_needed needed i
            then upload_block env (noting net) token path upload_id i b
            else pure tt)
          s
          t
          u
      → log_of env net t ≡ log_of env net s ++ this i b
  unfolding this
  this_block i b s h = elim (Bool-cases (is_needed needed i)) [
    | inl e ↦ rw e (upload_block-Runs env net token path upload_id i b s (rw e at h))
    | inr e ↦ rw e (sym (ap (log_of env net) ((pure-Runs tt s (rw e at h)).0)) ∙ sym (append-nil _))
  ]

  parts-this :
      (i : ℕ) (b : List ℕ) (bs : List (List ℕ))
      → parts token path upload_id needed i (b ∷ bs)
        ≡ this i b ++ parts token path upload_id needed (suc i) bs
  unfolding this
  parts-this i b bs = elim (Bool-cases (is_needed needed i)) [
    | inl e ↦ rw e refl
    | inr e ↦ rw e refl
  ]

  -- The loop of Put sends the blocks that are needed, in order.
  send_blocks-Runs :
      (i : ℕ) (bs : List (List ℕ)) (content : List ℕ) (s : Session (List Request × W))
      {t : Session (List Request × W)} {u : Unit {0}}
      → IsBlocks content bs
      → Runs
          (send_blocks env (noting net) token path upload_id needed i (map env.md5 bs) content ends)
          s
          t
          u
      → log_of env net t ≡ log_of env net s ++ parts token path upload_id needed i bs
  unfolding send_blocks
  send_blocks-Runs i [] content s k h = elim (k.cut) [ ]
  send_blocks-Runs i (b ∷ []) content s k h =
      let (x, e, q) = bind_lift-Runs (read_block content ends) _ s h in
      let (v, u, first, end) = then-Runs _ _ s q in
      let (same, f) = pure-Runs tt v end in
      sym (ap (log_of env net) same)
      ∙ this_block i b s (rw (first_block b [] content ends k e) at first)
      ∙ ap (λ z. log_of env net s ++ z) (sym (append-nil (this i b)) ∙ sym (parts-this i b []))
  send_blocks-Runs i (b ∷ c ∷ bs) content s k h =
      let (x, e, q) = bind_lift-Runs (read_block content ends) _ s h in
      let (v, u, first, others) = then-Runs _ _ s q in
      send_blocks-Runs (suc i) (c ∷ bs) (drop block_size content) v (rest-IsBlocks b c bs content k)
        others
      ∙ ap (λ z. z ++ parts token path upload_id needed (suc i) (c ∷ bs))
          (this_block i b s (rw (first_block b (c ∷ bs) content ends k e) at first))
      ∙ append_assoc (log_of env net s) (this i b)
          (parts token path upload_id needed (suc i) (c ∷ bs))
      ∙ ap (λ z. log_of env net s ++ z) (sym (parts-this i b (c ∷ bs)))

opened-content : (source : Source) {c : List ℕ} → opened source ≡ ok c → c ≡ source.content
opened-content source {c = c} h = elim (Option-cases source.open_error) [
  | inl v ↦ found (rw v at h)
  | inr (e, v) ↦ absurd (cc (rw v at h))
]
  where
    found : ok source.content ≡ ok c → c ≡ source.content
    found q = cc q

noted :
    (log before : List Request) (r : Request) (rest : List Request) {l : List Request}
    → l ≡ (log ++ before) ++ r ∷ []
    → l ++ rest ≡ log ++ (before ++ r ∷ rest)
noted log before r rest e = rw e (simp append_assoc)

module _ (env : Env) {W : Type 0} (net : Net W) where
  complete-Runs :
      (token rel : Text) (source : Source) (rename : Bool) (bs : List (List ℕ)) (pre : Precreated)
      (s : Session (List Request × W)) {t : Session (List Request × W)} {obj : Object}
      → IsBlocks source.content bs
      → Runs (complete env (noting net) token rel source rename (map env.md5 bs) pre) s t obj
      → log_of env net t
        ≡ log_of env net s
          ++ (parts token (remote_path env.root rel) pre.upload_id pre.blocks 0 bs
              ++ create_file token
                  (remote_path env.root rel)
                  source.size
                  pre.upload_id
                  (map env.md5 bs)
                  rename
                ∷ [])
  unfolding complete
  complete-Runs token rel source rename bs pre s k h =
      let path = remote_path env.root rel in
      let hashes = map env.md5 bs in
      let (content, opens, h1) = bind_lift-Runs (opened source) _ s h in
      let (s1, u1, q1, h2) = then-Runs _ _ s h1 in
      let (s2, done, q2, h3) = bind-Runs _ _ s1 h2 in
      let (s3, u3, q3, h4) = then-Runs _ _ s2 h3 in
      sym (
        ap (log_of env net)
          ((lift-Runs (check done.errno) s2 q3).0 ∙ (pure-Runs (made env rel done) s3 h4).0))
      ∙ (json_request-Runs env net env.read_created
          (create_file token path source.size pre.upload_id hashes rename) s1 q2).0
      ∙ ap (λ z. z ++ create_file token path source.size pre.upload_id hashes rename ∷ [])
          (send_blocks-Runs env net token path pre.upload_id pre.blocks source.read_error 0 bs
            content s (rw (opened-content source opens) k) q1)
      ∙ append_assoc (log_of env net s) (parts token path pre.upload_id pre.blocks 0 bs)
          (create_file token path source.size pre.upload_id hashes rename ∷ [])

  upload-Sent :
      (token rel : Text) (source : Source) (rename : Bool) (bs : List (List ℕ)) (log : List Request)
      (s : Session (List Request × W)) {t : Session (List Request × W)} {obj : Object}
      → IsBlocks source.content bs
      → Prelude env net log s
      → Runs (upload env (noting net) token rel source rename (map env.md5 bs)) s t obj
      → Sent env net source (remote_path env.root rel) rename log (log_of env net t)
  unfolding upload Prelude
  upload-Sent token rel source rename bs log s {t = t} k (before, all, start) h =
      let r = precreate token (remote_path env.root rel) source.size (map env.md5 bs) rename in
      let (s1, pre, q1, h1) = bind-Runs _ _ s h in
      let (log1, (x, answered, read)) = json_request-Runs env net env.read_precreated r s q1 in
      let (s2, u2, q2, h2) = then-Runs _ _ s1 h1 in
      record {
        blocks = bs;
        of_source = k;
        token = token;
        before = before;
        preliminary = all;
        world = s.world.1;
        answer = x;
        answered = answered;
        pre = pre;
        read = read;
        uploads = parts token (remote_path env.root rel) pre.upload_id pre.blocks 0 bs;
        uploaded = parts-Parts token (remote_path env.root rel) pre.upload_id pre.blocks 0 bs;
        sent =
            complete-Runs token rel source rename bs pre s2 k h2
            ∙ noted log before r _ (
                sym (ap (log_of env net) ((lift-Runs (check pre.errno) s1 q2).0))
                ∙ log1
                ∙ ap (λ z. z ++ r ∷ []) start);
      }

  -- A Put that succeeds sends requests for a token and for the directory at first. Then it announces the
  -- hashes of the blocks of the source, full ones but for the last, and sends in order, under the id
  -- that was given to it, those blocks whose index the answer lists, or all if it lists none, and no other. It ends with
  -- the creation of the file from these hashes.
  pub put-Sent :
      (name : Text) (source : Source) (rename : Bool) (log : List Request) (token : Token) (w : W)
      {t : Session (List Request × W)} {obj : Object}
      → Runs
          (put env (noting net) name source rename)
          (record { token = token; world = (log, w) })
          t
          obj
      → (rel : Text) × (normalize_relative name ≡ ok rel)
        × Sent env net source (remote_path env.root rel) rename log t.world.0
  unfolding put log_of Prelude
  put-Sent name source rename log token w {t = t} {obj = obj} h =
      let s : Session (List Request × W) = record { token = token; world = (log, w) } in
      let (rel, e, h1) = bind_lift-Runs (normalize_relative name) _ s h in
      let (s1, u1, q1, h2) = then-Runs _ _ s h1 in
      let (hashes, e2, h3) = bind_lift-Runs (block_hashes env source) _ s1 h2 in
      let (s2, tok, q2, h4) = bind-Runs _ _ s1 h3 in
      let asks = λ (r : Request) (i : IsPreliminary r). preliminary_keeps env net log r i in
      let first : Prelude env net log s1 =
        subst (λ p. Prelude env net log p.0) q1
          ((Keeps-mkdir env (noting net) (Prelude env net log) (λ x. asks _ tt)
              (adopt_keeps env net log) (λ x y. asks _ tt) (dir_of rel)).at
            s ([], tt, sym (append-nil log))) in
      let second : Prelude env net log s2 =
        subst (λ p. Prelude env net log p.0) q2
          ((Keeps-access_token env (noting net) (Prelude env net log) (λ x. asks _ tt)
              (adopt_keeps env net log)).at
            s1 first) in
      let (bs, eq, k) = block_hashes-IsBlocks env source e2 in
      (
        rel,
        e,
        upload-Sent tok rel source rename bs log s2 k second
            (subst (λ z. Runs (upload env (noting net) tok rel source rename z) s2 t obj) eq h4),
      )
