-- ===== src/Storage/Baidu/Keeps.antt =====
-- What the calls of the Baidu provider keep of its token and of the world, by a rule for each way to
-- build a call.
use ialbum.Base.{
  ℕ, zero, suc, Bool, true, false, List, [], ◌∷◌, Option, none, some, if◌then◌else◌, not, ◌||◌,
  drop, inl, inr, Bool-cases,
}
use ialbum.Text.{Text, is_empty}
use ialbum.Sql.{find}
use ialbum.Storage.{Result, ok, err, Error, not_found, Object, ByteRange}
use ialbum.Manager.{Token}
use ialbum.Storage.Baidu.Calls.{ℤ, Session, Call, pure, raise, lift, ◌>>=◌, ◌>>◌, proceed}
use ialbum.Storage.Baidu.{
  Request, refresh, create_dir, Env, Net, TokenResponse, Precreated, request, json_request, adopt,
  accept_token, access_token, is_fresh,
}
use ialbum.Storage.Baidu.Reads.{
  list, list_page, on_page, find_object, stat, fetch, open_found, open_file, is_at, no_reader,
  unfinished,
}
use ialbum.Storage.Baidu.Upload.{
  Source, mkdir, upload_block, send_blocks, complete, upload, put, move, delete, block_size,
  read_block,
}

pub record Keeps {W A : Type 0} (P : Session W → Type 0) (m : Call W A) : Type 0 where
  pub at : (s : Session W) → P s → P (m s).0

module _ {W : Type 0} {P : Session W → Type 0} {A : Type 0} where
  pub Keeps-pure : (a : A) → Keeps P (pure a)
  unfolding pure
  Keeps-pure a = record { at = λ s h. h }

  pub Keeps-raise : (e : Error) → Keeps P (raise {A = A} e)
  unfolding raise
  Keeps-raise e = record { at = λ s h. h }

  pub Keeps-lift : (r : Result A) → Keeps P (lift r)
  unfolding lift
  Keeps-lift r = record { at = λ s h. h }

  pub Keeps-if : (b : Bool) (m n : Call W A) → Keeps P m → Keeps P n → Keeps P (if b then m else n)
  Keeps-if true m n k l = k
  Keeps-if false m n k l = l

module _ {W : Type 0} {P : Session W → Type 0} {A B : Type 0} where
  proceed_keeps :
      (f : A → Call W B) (r : Result A) (s : Session W)
      → ((a : A) → Keeps P (f a))
      → P s
      → P (proceed f s r).0
  proceed_keeps f (ok a) s k h = (k a).at s h
  proceed_keeps f (err e) s k h = h

  pub Keeps-bind :
      (m : Call W A) (f : A → Call W B) → Keeps P m → ((a : A) → Keeps P (f a)) → Keeps P (m >>= f)
  unfolding ◌>>=◌
  Keeps-bind m f k l = record { at = λ s h. proceed_keeps f (m s).1 (m s).0 l (k.at s h) }

  pub Keeps-then : (m : Call W A) (n : Call W B) → Keeps P m → Keeps P n → Keeps P (m >> n)
  unfolding ◌>>◌
  Keeps-then m n k l = Keeps-bind m (λ a. n) k (λ a. l)

pub ruleset keeps_rules = (Keeps-pure, Keeps-raise, Keeps-lift, Keeps-if, Keeps-bind, Keeps-then)

module _ (env : Env) {W : Type 0} (net : Net W) (P : Session W → Type 0) where
  pub Keeps-json_request :
      {A : Type 0} (read : List ℕ → Result A) (r : Request)
      → Keeps P (request env net r)
      → Keeps P (json_request env net read r)
  unfolding json_request
  Keeps-json_request read r k = search (keeps_rules, k)

module _ (env : Env) {W : Type 0} (net : Net W) (P : Session W → Type 0)
    (refreshes : (t : Text) → Keeps P (request env net (refresh t env.app_key env.secret_key)))
    (adopts : (t : Token) → Keeps P (adopt env net t)) where
  Keeps-accept_token : (answer : TokenResponse) → Keeps P (accept_token env net answer)
  unfolding accept_token
  Keeps-accept_token answer = record {
    at = λ s h. elim (Bool-cases (not (is_empty answer.error) || is_empty answer.access_token)) [
      | inl e ↦ rw (e, accept_token) h
      | inr e ↦ rw (e, accept_token) ((adopts _).at s h)
    ];
  }

  pub Keeps-access_token : Keeps P (access_token env net)
  unfolding access_token
  Keeps-access_token = record {
    at = λ s h. elim (Bool-cases (is_fresh env net s)) [
      | inl e ↦ rw (e, access_token) h
      | inr e ↦ elim (Bool-cases (is_empty s.token.refresh_token)) [
        | inl f ↦ rw (e, f, access_token) h
        | inr f ↦
            rw (e, f, access_token)
              ((Keeps-bind _ _ (Keeps-json_request env net P env.read_token _ (refreshes _))
                  Keeps-accept_token).at
                s h)
      ]
    ];
  }

  pub Keeps-mkdir :
      ((token path : Text) → Keeps P (request env net (create_dir token path)))
      → (name : Text) → Keeps P (mkdir env net name)
  unfolding mkdir
  Keeps-mkdir makes name =
      search (keeps_rules, Keeps-json_request env net P, makes, Keeps-access_token) depth 16

module _ (env : Env) {W : Type 0} (net : Net W) (P : Session W → Type 0)
    (asks : (r : Request) → Keeps P (request env net r))
    (adopts : (t : Token) → Keeps P (adopt env net t)) where
  reads :
      {A : Type 0} (read : List ℕ → Result A) (r : Request) → Keeps P (json_request env net read r)
  reads read r = Keeps-json_request env net P read r (asks r)

  gets_token : Keeps P (access_token env net)
  gets_token = Keeps-access_token env net P (λ t. asks _) adopts

  makes_dir : (name : Text) → Keeps P (mkdir env net name)
  makes_dir = Keeps-mkdir env net P (λ t. asks _) adopts (λ t p. asks _)

  Keeps-list_page :
      (rel : Text) (start : ℤ) (limit : ℕ) (token : Text)
      → Keeps P (list_page env net rel start limit token)
  unfolding list_page
  Keeps-list_page rel start limit token = search (keeps_rules, asks, reads, gets_token)

  Keeps-list : (dir cursor : Text) (limit : ℕ) → Keeps P (list env net dir cursor limit)
  unfolding list
  Keeps-list dir cursor limit = search (keeps_rules, reads, gets_token, Keeps-list_page)

  Keeps-on_page :
      (found : Option Object) (next : Text) (more : Text → Call W (Option Object))
      → ((cursor : Text) → Keeps P (more cursor))
      → Keeps P (on_page env net found next more)
  Keeps-on_page (some obj) next more k = Keeps-pure (some obj)
  Keeps-on_page none [] more k = Keeps-raise not_found
  Keeps-on_page none (c ∷ next) more k = k (c ∷ next)

  Keeps-find_object :
      (fuel : ℕ) (dir rel cursor : Text) → Keeps P (find_object env net fuel dir rel cursor)
  unfolding find_object
  Keeps-find_object zero dir rel cursor = Keeps-pure none
  Keeps-find_object (suc fuel) dir rel cursor = Keeps-bind _ _ (Keeps-list dir cursor 200) λ page.
      Keeps-on_page (find (is_at rel) page.objects) page.next_cursor
        (find_object env net fuel dir rel) (Keeps-find_object fuel dir rel)

  Keeps-stat : (fuel : ℕ) (name : Text) → Keeps P (stat env net fuel name)
  unfolding stat
  Keeps-stat fuel name = search (keeps_rules, reads, gets_token, Keeps-find_object)

  Keeps-fetch :
      (br : Option ByteRange) (obj : Object) (token : Text) (dlinks : List Text)
      → Keeps P (fetch env net br obj token dlinks)
  unfolding fetch
  Keeps-fetch br obj token [] = Keeps-pure no_reader
  Keeps-fetch br obj token (dlink ∷ rest) = search (keeps_rules, asks, reads, gets_token)

  Keeps-open_found : (br : Option ByteRange) (obj : Object) → Keeps P (open_found env net br obj)
  unfolding open_found
  Keeps-open_found br obj = search (keeps_rules, reads, gets_token, Keeps-fetch)

  Keeps-open_file :
      (fuel : ℕ) (name : Text) (br : Option ByteRange) → Keeps P (open_file env net fuel name br)
  unfolding open_file
  Keeps-open_file fuel name br = Keeps-bind _ _ (Keeps-stat fuel name) λ found.
      elim found
        as (λ o.
          Keeps P (elim o [ none ↦ pure unfinished | some obj ↦ open_found env net br obj ])) [
            | none ↦ Keeps-pure unfinished
            | some obj ↦ Keeps-open_found br obj
          ]

  Keeps-upload_block :
      (token path upload_id : Text) (index : ℕ) (block : List ℕ)
      → Keeps P (upload_block env net token path upload_id index block)
  unfolding upload_block
  Keeps-upload_block token path upload_id index block =
      search (keeps_rules, asks, reads, gets_token)

  Keeps-send_blocks :
      (token path upload_id : Text) (needed : List ℤ) (i : ℕ) (hashes : List Text)
      (content : List ℕ) (ends : Option Error)
      → Keeps P (send_blocks env net token path upload_id needed i hashes content ends)
  unfolding send_blocks
  Keeps-send_blocks token path upload_id needed i [] content ends = Keeps-pure tt
  Keeps-send_blocks token path upload_id needed i (h ∷ hashes) content ends =
      Keeps-bind _ _ (Keeps-lift (read_block content ends)) λ block.
        Keeps-then _ _ (search (keeps_rules, Keeps-upload_block)) (
          Keeps-send_blocks token path upload_id needed (suc i) hashes (drop block_size content)
            ends)

  Keeps-complete :
      (token rel : Text) (source : Source) (rename : Bool) (hashes : List Text) (pre : Precreated)
      → Keeps P (complete env net token rel source rename hashes pre)
  unfolding complete
  Keeps-complete token rel source rename hashes pre =
      search (keeps_rules, reads, Keeps-send_blocks) depth 16

  Keeps-upload :
      (token rel : Text) (source : Source) (rename : Bool) (hashes : List Text)
      → Keeps P (upload env net token rel source rename hashes)
  unfolding upload
  Keeps-upload token rel source rename hashes = search (keeps_rules, reads, Keeps-complete)

  Keeps-put :
      (name : Text) (source : Source) (rename : Bool) → Keeps P (put env net name source rename)
  unfolding put
  Keeps-put name source rename = search (keeps_rules, reads, gets_token, makes_dir, Keeps-upload)

  Keeps-move : (from to : Text) (overwrite : Bool) → Keeps P (move env net from to overwrite)
  unfolding move
  Keeps-move from to overwrite = search (keeps_rules, asks, reads, gets_token)

  Keeps-delete : (name : Text) → Keeps P (delete env net name)
  unfolding delete
  Keeps-delete name = search (keeps_rules, asks, reads, gets_token)

pub data Operation : Type 0 where
  list_call : (dir cursor : Text) → (limit : ℕ) → Operation
  stat_call : (fuel : ℕ) → (name : Text) → Operation
  open_call : (fuel : ℕ) → (name : Text) → Option ByteRange → Operation
  put_call : (name : Text) → Source → (rename : Bool) → Operation
  mkdir_call : (name : Text) → Operation
  move_call : (from to : Text) → (overwrite : Bool) → Operation
  delete_call : (name : Text) → Operation

module _ (env : Env) {W : Type 0} (net : Net W) where
  -- What a call leaves, whatever it answers.
  unfoldable pub perform : Operation → Session W → Session W
  unfolding list stat open_file put mkdir move delete
  perform (list_call dir cursor limit) s = (list env net dir cursor limit s).0
  perform (stat_call fuel name) s = (stat env net fuel name s).0
  perform (open_call fuel name br) s = (open_file env net fuel name br s).0
  perform (put_call name source rename) s = (put env net name source rename s).0
  perform (mkdir_call name) s = (mkdir env net name s).0
  perform (move_call from to overwrite) s = (move env net from to overwrite s).0
  perform (delete_call name) s = (delete env net name s).0

  unfoldable pub perform_all : List Operation → Session W → Session W
  unfolding perform
  perform_all [] s = s
  perform_all (o ∷ os) s = perform_all os (perform o s)

module _ (env : Env) {W : Type 0} (net : Net W) (P : Session W → Type 0)
    (asks : (r : Request) → Keeps P (request env net r))
    (adopts : (t : Token) → Keeps P (adopt env net t)) where
  perform_keeps : (o : Operation) (s : Session W) → P s → P (perform env net o s)
  unfolding perform
  perform_keeps (list_call dir cursor limit) s h =
      (Keeps-list env net P asks adopts dir cursor limit).at s h
  perform_keeps (stat_call fuel name) s h = (Keeps-stat env net P asks adopts fuel name).at s h
  perform_keeps (open_call fuel name br) s h =
      (Keeps-open_file env net P asks adopts fuel name br).at s h
  perform_keeps (put_call name source rename) s h =
      (Keeps-put env net P asks adopts name source rename).at s h
  perform_keeps (mkdir_call name) s h = (makes_dir env net P asks adopts name).at s h
  perform_keeps (move_call from to overwrite) s h =
      (Keeps-move env net P asks adopts from to overwrite).at s h
  perform_keeps (delete_call name) s h = (Keeps-delete env net P asks adopts name).at s h

  -- What each request and each change of the token keep is kept by any sequence of calls.
  pub perform_all_keeps : (os : List Operation) (s : Session W) → P s → P (perform_all env net os s)
  unfolding perform_all
  perform_all_keeps [] s h = h
  perform_all_keeps (o ∷ os) s h = perform_all_keeps os (perform env net o s) (perform_keeps o s h)
