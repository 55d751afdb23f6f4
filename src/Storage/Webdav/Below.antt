-- ===== src/Storage/Webdav/Below.antt =====
-- Every request of the WebDAV provider is for its root or for something below it.
use ialbum.Base.{
  ℕ, Bool, true, false, List, [], ◌∷◌, ◌++◌, inl, inr, Option, none, some, ◌≡◌, refl, Option-cases,
  All, All-append,
}
use ialbum.Text.{Text, split, join}
use ialbum.Storage.{Result, Result-cases, ok, ByteRange}
use ialbum.Storage.Path.{slash, normalize_relative}
use ialbum.Storage.Path.Laws.{IsName, normalize_relative-IsInside, split-names}
use ialbum.Storage.Disk.{Names}
use ialbum.Storage.Local.{Source, names_of}
use ialbum.Storage.Webdav.{
  Request, Response, Env, object_url, ask, stat, list, open_file, open_found, mkdir, mkdir_below,
  move_to, remove, send, put_in, store, rename_temp, mkcol, relative, by_status, is_success, sent,
  temp_name, dir_of, is_made, upload,
}

-- A path of the server that leads into the root: the base, then names.
abbrev pub IsBelow : Names → Names → Type 0
IsBelow base p = (ns : Names) × (p ≡ base ++ ns) × All IsName ns

abbrev LeadsBelow : Names → Option (Names × Bool) → Type 0
LeadsBelow base none = Unit
LeadsBelow base (some (p, o)) = IsBelow base p

-- The path of a request, and the destination of a move.
abbrev pub StaysBelow : Names → Request → Type 0
StaysBelow base r = IsBelow base r.path × LeadsBelow base r.destination

joined_names : (ns : Names) → All IsName ns → All IsName (names_of (join ns slash))
unfolding join
joined_names [] h = tt
joined_names (n ∷ ns) h = nonempty (join (n ∷ ns) slash) (split-names n ns h)
  where
    nonempty : (s : Text) → split s slash ≡ n ∷ ns → All IsName (names_of s)
    nonempty [] e = tt
    nonempty (c ∷ s) e = rw e h

names_of-IsName :
    (name : Text) {rel : Text} → normalize_relative name ≡ ok rel → All IsName (names_of rel)
names_of-IsName name e =
    let inside = normalize_relative-IsInside name e in
    rw (inside.joined) (joined_names inside.names inside.all_names)

object_url-IsBelow : (env : Env) (name : Text) → IsBelow env.base (object_url env name)
unfolding object_url
object_url-IsBelow env name = elim (Result-cases (normalize_relative name)) [
  | inr (e, h) ↦ ([], rw (object_url, relative, h), tt)
  | inl (rel, h) ↦ (names_of rel, rw (object_url, relative, h), names_of-IsName name h)
]

module _ (env : Env) {W : Type 0} (serve : Request → W → W × Result Response) (P : W → Type 0)
    (keep : (r : Request) (w : W) → StaysBelow env.base r → P w → P (serve r w).0) where
  stat_keeps : (name : Text) (w : W) → P w → P (stat env serve name w).0
  unfolding stat
  stat_keeps name w h = keep _ w (object_url-IsBelow env name, tt) h

  list_keeps :
      (dir cursor : Text) (limit : ℕ) (w : W) → P w → P (list env serve dir cursor limit w).0
  unfolding list
  list_keeps dir cursor limit w h = keep _ w (object_url-IsBelow env dir, tt) h

  open_keeps :
      (name : Text) (br : Option ByteRange) (w : W) → P w → P (open_file env serve name br w).0
  unfolding open_file open_found
  open_keeps name br w h = elim (Result-cases (stat env serve name w).1) [
    | inr (e, v) ↦ rw (open_file, v) (stat_keeps name w h)
    | inl (obj, v) ↦
        rw (open_file, v) (keep _ _ (object_url-IsBelow env name, tt) (stat_keeps name w h))
  ]

  mkdir_below_keeps :
      (current parts : Names) (w : W)
      → All IsName current
      → All IsName parts
      → P w
      → P (mkdir_below env serve current parts w).0
  unfolding mkdir_below
  mkdir_below_keeps current [] w a b h = h
  mkdir_below_keeps current (part ∷ parts) w a b h =
      let all : All IsName (current ++ part ∷ []) =
        All-append IsName current (part ∷ []) a (b.0, tt) in
      let now : P (serve (ask mkcol (env.base ++ (current ++ part ∷ []))) w).0 =
        keep _ w ((current ++ part ∷ [], refl, all), tt) h in
      elim (Result-cases (
        by_status (is_made env serve)
          (serve (ask mkcol (env.base ++ (current ++ part ∷ []))) w).1)) [
            | inr (e, v) ↦ rw (mkdir_below, v) now
            | inl (u, v) ↦
                rw (mkdir_below, v) (mkdir_below_keeps (current ++ part ∷ []) parts _ all b.1 now)
          ]

  mkdir_keeps : (name : Text) (w : W) → P w → P (mkdir env serve name w).0
  unfolding mkdir
  mkdir_keeps name w h = elim (Result-cases (normalize_relative name)) [
    | inr (e, v) ↦ rw (mkdir, v) h
    | inl (rel, v) ↦
        rw (mkdir, v) (mkdir_below_keeps [] (names_of rel) w tt (names_of-IsName name v) h)
  ]

  move_keeps :
      (from to : Text) (overwrite : Bool) (w : W)
      → P w
      → P (move_to env serve from to overwrite w).0
  unfolding move_to
  move_keeps from to overwrite w h =
      keep _ w (object_url-IsBelow env from, object_url-IsBelow env to) h

  remove_keeps : (name : Text) (w : W) → P w → P (remove env serve name w).0
  unfolding remove
  remove_keeps name w h = keep _ w (object_url-IsBelow env name, tt) h

  rename_temp_keeps : (name : Text) (w : W) → P w → P (rename_temp env serve name w).0
  unfolding rename_temp
  rename_temp_keeps name w h =
      elim (Result-cases (move_to env serve (temp_name env serve name) name true w).1) [
        | inr (e, v) ↦ rw (rename_temp, v) (move_keeps (temp_name env serve name) name true w h)
        | inl (u, v) ↦
            rw (rename_temp, v)
              (stat_keeps name _ (move_keeps (temp_name env serve name) name true w h))
      ]

  send_keeps : (name : Text) (source : Source) (w : W) → P w → P (send env serve name source w).0
  unfolding send
  send_keeps name source w h = elim (Option-cases source.open_error) [
    | inr (e, v) ↦ rw (send, v) h
    | inl v ↦
        let now : P (serve (upload env (temp_name env serve name) source) w).0 =
          keep _ w (object_url-IsBelow env (temp_name env serve name), tt) h in
        elim (Result-cases (
          by_status is_success
            (sent source.read_error (serve (upload env (temp_name env serve name) source) w).1))) [
              | inr (e, u) ↦ rw (send, v, u) now
              | inl (t, u) ↦ rw (send, v, u) (rename_temp_keeps name _ now)
            ]
  ]

  put_in_keeps :
      (name : Text) (source : Source) (w : W) → P w → P (put_in env serve name source w).0
  unfolding put_in
  put_in_keeps name source w h = elim (Result-cases (mkdir env serve (dir_of name) w).1) [
    | inr (e, v) ↦ rw (put_in, v) (mkdir_keeps (dir_of name) w h)
    | inl (u, v) ↦ rw (put_in, v) (send_keeps name source _ (mkdir_keeps (dir_of name) w h))
  ]

  store_keeps :
      (name : Text) (source : Source) (fail : Bool) (w : W)
      → P w
      → P (store env serve name source fail w).0
  unfolding store
  store_keeps name source false w h = put_in_keeps name source w h
  store_keeps name source true w h = elim (Result-cases (stat env serve name w).1) [
    | inl (obj, v) ↦ rw (store, v) (stat_keeps name w h)
    | inr (e, v) ↦ rw (store, v) (put_in_keeps name source _ (stat_keeps name w h))
  ]

pub data Call : Type 0 where
  stat_call : Text → Call
  list_call : Text → Text → ℕ → Call
  open_call : Text → Option ByteRange → Call
  put_call : Text → Source → Bool → Call
  mkdir_call : Text → Call
  move_call : Text → Text → Bool → Call
  delete_call : Text → Call

-- What a sequence of calls leaves of the server.
unfoldable pub run :
    (env : Env) {W : Type 0} → (Request → W → W × Result Response) → List Call → W → W
unfolding stat list open_file store mkdir move_to remove
run env serve [] w = w
run env serve (stat_call name ∷ cs) w = run env serve cs (stat env serve name w).0
run env serve (list_call dir cursor limit ∷ cs) w =
    run env serve cs (list env serve dir cursor limit w).0
run env serve (open_call name br ∷ cs) w = run env serve cs (open_file env serve name br w).0
run env serve (put_call name source fail ∷ cs) w =
    run env serve cs (store env serve name source fail w).0
run env serve (mkdir_call name ∷ cs) w = run env serve cs (mkdir env serve name w).0
run env serve (move_call from to overwrite ∷ cs) w =
    run env serve cs (move_to env serve from to overwrite w).0
run env serve (delete_call name ∷ cs) w = run env serve cs (remove env serve name w).0

-- Whatever the names in its calls are, the provider sends requests, and destinations of moves, only for
-- its root or for proper names below it: what such requests leave as it is on the server stays so in
-- any sequence of calls, failed ones included.
pub run_keeps :
    (env : Env) {W : Type 0} (serve : Request → W → W × Result Response) (P : W → Type 0)
    → ((r : Request) (w : W) → StaysBelow env.base r → P w → P (serve r w).0)
    → (cs : List Call) (w : W) → P w
    → P (run env serve cs w)
unfolding run
run_keeps env serve P keep [] w h = h
run_keeps env serve P keep (stat_call name ∷ cs) w h =
    run_keeps env serve P keep cs _ (stat_keeps env serve P keep name w h)
run_keeps env serve P keep (list_call dir cursor limit ∷ cs) w h =
    run_keeps env serve P keep cs _ (list_keeps env serve P keep dir cursor limit w h)
run_keeps env serve P keep (open_call name br ∷ cs) w h =
    run_keeps env serve P keep cs _ (open_keeps env serve P keep name br w h)
run_keeps env serve P keep (put_call name source fail ∷ cs) w h =
    run_keeps env serve P keep cs _ (store_keeps env serve P keep name source fail w h)
run_keeps env serve P keep (mkdir_call name ∷ cs) w h =
    run_keeps env serve P keep cs _ (mkdir_keeps env serve P keep name w h)
run_keeps env serve P keep (move_call from to overwrite ∷ cs) w h =
    run_keeps env serve P keep cs _ (move_keeps env serve P keep from to overwrite w h)
run_keeps env serve P keep (delete_call name ∷ cs) w h =
    run_keeps env serve P keep cs _ (remove_keeps env serve P keep name w h)
