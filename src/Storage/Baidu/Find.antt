-- ===== src/Storage/Baidu/Find.antt =====
-- internal/storage/baidu/baidu.go, `Stat`: the search through the pages of a directory.
use ialbum.Base.{
  length-drop, ℕ, zero, suc, ◌+◌, ◌*◌, ◌≤◌, ◌<◌, true, false, List, [], ◌∷◌, ◌++◌, map, map-append,
  Option, none, some, inl, inr, ◌≡◌, refl, sym, ap, ◌∙◌, arith, ◌==◌, if◌then◌else◌, Bool-cases,
  Option-cases, length, take, drop,
}
use ialbum.Text.{Text, itoa, is_empty}
use ialbum.Sql.{find}
use ialbum.Sql.Laws.{find-append, find-append_none, find-none}
use ialbum.Storage.{Result, ok, err, not_found, Object}
use ialbum.Storage.Path.{normalize_relative}
use ialbum.Storage.Webdav.{dir_of}
use ialbum.Storage.Local.Listing.{digits, max_int}
use ialbum.Storage.Local.Pages.{digits-itoa, itoa-ne, halves}
use ialbum.Storage.Baidu.Calls.{pos, ◌+ℤ◌, itoa_ℤ, atoi, Session, Call, pure, raise}
use ialbum.Storage.Baidu.{
  list_files, Item, Env, Net, map_errno, remote_path, object_of, json_request, access_token,
}
use ialbum.Storage.Baidu.Reads.{
  page_of, directory, is_at, list_page, list, on_page, find_object, stat,
}
use ialbum.Storage.Baidu.Runs.{Runs, bind-eq, bind_lift-eq, then_lift-eq}

atoi_number :
    (s : Text) {n : ℕ} → digits 0 s ≡ some n → n ≤ max_int → is_empty s ≡ false → atoi s ≡ pos n
unfolding atoi digits
atoi_number [] e h ne = absurd (cc ne)
atoi_number (c ∷ []) e h ne = ground arith
atoi_number (c ∷ d ∷ s) e h ne = ground arith

atoi-itoa : (n : ℕ) → n ≤ max_int → atoi (itoa n) ≡ pos n
atoi-itoa n h = atoi_number (itoa n) (digits-itoa n) h (itoa-ne n)

drop-drop {ℓ} : {A : Type ℓ} (n o e : ℕ) (xs : List A) → e ≡ o + n → drop n (drop o xs) ≡ drop e xs
drop-drop n zero e xs h = let same : e ≡ n = omega (arith, h) in rw same refl
drop-drop n (suc o) zero xs h = absurd (omega (arith, h))
drop-drop zero (suc o) (suc e) [] h = refl
drop-drop (suc n) (suc o) (suc e) [] h = refl
drop-drop n (suc o) (suc e) (x ∷ xs) h = drop-drop n o e xs (omega (arith, h))

take_short {ℓ} :
    {A : Type ℓ} (n : ℕ) (xs : List A) → (length (take n xs) == n) ≡ false → take n xs ≡ xs
take_short zero xs h = absurd (cc h)
take_short (suc n) [] h = refl
take_short (suc n) (x ∷ xs) h = ap (λ z. x ∷ z) (take_short n xs (ground (arith, h)))

take_full {ℓ} :
    {A : Type ℓ} (n : ℕ) (xs : List A) → (length (take n xs) == n) ≡ true → n ≤ length xs
take_full zero xs h = omega arith
take_full (suc n) [] h = absurd (ground (arith, h))
take_full (suc n) (x ∷ xs) h = omega (arith, take_full n xs (ground (arith, h)))

-- What Stat answers where all objects of the directory are known.
abbrev pub answer : Option Object → Result (Option Object)
answer (some obj) = ok (some obj)
answer none = err not_found

-- Baidu lists a directory by parts, and gives a token, as long as `P` holds.
pub record Serves (env : Env) {W : Type 0} (net : Net W) (P : Session W → Type 0) (dir : Text)
    (items : List Item) : Type 0 where
  pub gives_token :
      (s : Session W)
      → P s
      → (t : Session W) × (token : Text) × P t × Runs (access_token env net) s t token
  pub lists :
      (s : Session W)
      → P s
      → (token : Text) (start : ℕ)
      → (t : Session W) × P t
        × Runs
            (json_request env net env.read_listed
              (list_files token (remote_path env.root dir) (pos start) 200))
            s
            t
            (record { errno = pos 0; items = take 200 (drop start items) })

module _ (env : Env) {W : Type 0} (net : Net W) (P : Session W → Type 0) (name_of_dir dir : Text)
    (items : List Item) (serves : Serves env net P dir items)
    (normal : normalize_relative name_of_dir ≡ ok dir) where
  -- A page of the directory.
  list_at :
      (start : ℕ) (cursor : Text) (s : Session W)
      → atoi cursor ≡ pos start
      → P s
      → (t : Session W) × P t
        × Runs
            (list env net name_of_dir cursor 200)
            s
            t
            (page_of env (pos start) 200 (take 200 (drop start items)))
  unfolding list list_page map_errno pure
  list_at start cursor s c p =
      let (t, token, pt, got) = serves.gives_token s p in
      let (u, pu, listed) = serves.lists t pt token start in
      (
        u,
        pu,
        bind-eq _ _ s got
            ∙ bind_lift-eq _ _ t normal
            ∙ ap (λ z. list_page env net dir z 200 token t) c
            ∙ (bind-eq _ _ t listed ∙ then_lift-eq _ _ u refl),
      )

  objects : ℕ → List Object
  objects start = map (object_of env) (drop start items)

  page_objects : ℕ → List Object
  page_objects start = map (object_of env) (take 200 (drop start items))

  later : (start : ℕ) → objects start ≡ page_objects start ++ objects (start + 200)
  unfolding objects page_objects
  later start =
      ap (map (object_of env)) (
        halves 200 (drop start items)
        ∙ ap (λ z. take 200 (drop start items) ++ z) (drop-drop 200 start (start + 200) items refl))
      ∙ map-append (object_of env) (take 200 (drop start items)) (drop (start + 200) items)

  next_of : ℕ → Text
  next_of start = if length (take 200 (drop start items)) == 200 then itoa (start + 200) else []

  find-objects :
      (rel : Text) (start : ℕ)
      → find (is_at rel) (page_objects start) ≡ none
      → find (is_at rel) (objects start) ≡ find (is_at rel) (objects (start + 200))
  find-objects rel start h =
      ap (find (is_at rel)) (later start)
      ∙ find-append_none (is_at rel) (page_objects start) (objects (start + 200))
          (find-none (is_at rel) (page_objects start) h)

  find-last :
      (rel : Text) (start : ℕ)
      → (length (take 200 (drop start items)) == 200) ≡ false
      → find (is_at rel) (page_objects start) ≡ none
      → find (is_at rel) (objects start) ≡ none
  unfolding objects page_objects
  find-last rel start last h =
      ap (λ z. find (is_at rel) (map (object_of env) z))
        (sym (take_short 200 (drop start items) last))
      ∙ h

  on_page_full :
      (n : ℕ) (more : Text → Call W (Option Object)) (t : Session W)
      → on_page env net none (itoa n) more t ≡ more (itoa n) t
  on_page_full n more t = numeral (itoa n) (itoa-ne n)
    where
      numeral : (s : Text) → is_empty s ≡ false → on_page env net none s more t ≡ more s t
      numeral [] h = absurd (cc h)
      numeral (c ∷ s) h = refl

  -- A turn of the loop of Stat.
  on_page-answer :
      (rel : Text) (start : ℕ) (more : Text → Call W (Option Object)) (t : Session W)
      → P t
      → ((length (take 200 (drop start items)) == 200) ≡ true
          → (u : Session W) × P u
            × (more (itoa (start + 200)) t
                ≡ (u, answer (find (is_at rel) (objects (start + 200))))))
      → (u : Session W) × P u
        × (on_page env net (find (is_at rel) (page_objects start)) (next_of start) more t
            ≡ (u, answer (find (is_at rel) (objects start))))
  unfolding next_of pure raise
  on_page-answer rel start more t p rest =
      elim (Option-cases (find (is_at rel) (page_objects start))) [
        | inr (obj, f) ↦
            let found : find (is_at rel) (objects start) ≡ some obj =
              ap (find (is_at rel)) (later start)
              ∙ find-append (is_at rel) (page_objects start) (objects (start + 200)) f in
            (t, p, rw (f, found) refl)
        | inl f ↦ elim (Bool-cases (length (take 200 (drop start items)) == 200)) [
          | inr last ↦ (t, p, rw (f, find-last rel start last f, last) refl)
          | inl full ↦
              let (u, q, e) = rest full in
              (u, q, rw (f, full, find-objects rel start f) (on_page_full (start + 200) more t ∙ e))
        ]
      ]

  -- The loop of Stat from a page on.
  find_object-from :
      (rel : Text) (fuel start : ℕ) (cursor : Text) (s : Session W)
      → atoi cursor ≡ pos start
      → start ≤ length items
      → length items ≤ max_int
      → length items < start + fuel * 200
      → P s
      → (t : Session W) × P t
        × (find_object env net fuel name_of_dir rel cursor s
            ≡ (t, answer (find (is_at rel) (objects start))))
  unfolding find_object page_of page_objects next_of itoa_ℤ ◌+ℤ◌
  find_object-from rel zero start cursor s c low short more p = absurd (omega arith)
  find_object-from rel (suc fuel) start cursor s c low short more p =
      let (t, pt, listed) = list_at start cursor s c p in
      let (u, pu, e) =
        on_page-answer rel start (find_object env net fuel name_of_dir rel) t pt (λ full.
          let fits : start + 200 ≤ length items =
            omega (arith, take_full 200 (drop start items) full, length-drop start items, low) in
          find_object-from rel fuel (start + 200) (itoa (start + 200)) t
            (atoi-itoa (start + 200) (omega arith)) fits short (omega arith) pt) in
      (u, pu, bind-eq _ _ s listed ∙ e)

-- Stat of a name whose directory Baidu lists by parts, in any order and with any other files in between,
-- gives the first file of the directory that has the name, or not found if there is none, after as
-- many pages as the directory fills and one more.
pub stat_finds :
    (env : Env) {W : Type 0} (net : Net W) (P : Session W → Type 0) (name : Text) (rel dir : Text)
    (items : List Item)
    → Serves env net P dir items
    → normalize_relative name ≡ ok rel
    → normalize_relative (directory (dir_of rel)) ≡ ok dir
    → length items ≤ max_int
    → (fuel : ℕ) → length items < fuel * 200
    → (s : Session W) → P s
    → (t : Session W) × P t
      × (stat env net fuel name s ≡ (t, answer (find (is_at rel) (map (object_of env) items))))
unfolding stat objects
stat_finds env net P name rel dir items serves named normal short fuel enough s p =
    let (t, pt, e) =
      find_object-from env net P (directory (dir_of rel)) dir items serves normal rel fuel 0 [] s
        refl (omega arith) short (omega arith) p in
    (t, pt, bind_lift-eq _ _ s named ∙ e)
