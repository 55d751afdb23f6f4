-- ===== src/Storage/Local/Pages.antt =====
-- The pages of a directory together.
pub mod Named
mod Tests
use ialbum.Base.{
  ℕ, zero, suc, ◌+◌, ◌-◌, ◌*◌, ◌/◌, ◌%◌, ◌≤◌, ◌<◌, Bool, true, false, not, ◌&&◌, ◌||◌, List, [],
  ◌∷◌, ◌++◌, map, append-nil, append_assoc, ◌≢◌, ◌↔◌, ◌⊎◌, inl, inr, Option, none, some, is_some,
  some_inj, ◌≡◌, refl, sym, ap, ◌∙◌, arith, ltb, leb, ◌==◌, if◌then◌else◌, Bool-cases, Option-cases,
  ==_iff, length, take, drop, length-append, length-take_le, All, All-append, All-take, All-imp,
  All-Elem, Elem, here, there, NotIn, Distinct,
}
use ialbum.Text.{Text, itoa, itoa_fuel, is_empty}
use ialbum.Sql.{insert_sorted, order_by}
use ialbum.Storage.{Error, Result, ok, err, Object, Page}
use ialbum.Storage.Disk.{Names, Disk, Node, file, folder, link, done, failed, read_dir}
use ialbum.Storage.Local.{Call, canceled, clean}
use ialbum.Storage.Local.Listing.{
  is_digit, digits, max_int, atoi, by_name, objects_of, is_cancelled, page_limit, min, page_of,
  list,
}

last_digit : (n : ℕ) (out : Text) → digits (n / 10) ((b'0' + n % 10) ∷ out) ≡ digits n out
unfolding digits
last_digit n out =
    let is : is_digit (b'0' + n % 10) ≡ true = ground arith in
    let whole : n / 10 * 10 + (b'0' + n % 10 - b'0') ≡ n = omega arith in rw (digits, is, whole)

digits-itoa_fuel : (f n : ℕ) (out : Text) → n < f → digits 0 (itoa_fuel f n out) ≡ digits n out
unfolding itoa_fuel digits
digits-itoa_fuel zero n out h = absurd (omega arith)
digits-itoa_fuel (suc f) n out h = elim (Bool-cases (ltb n 10)) [
  | inl e ↦ rw (itoa_fuel, e) (ground arith)
  | inr e ↦
      rw (itoa_fuel, e)
        (digits-itoa_fuel f (n / 10) ((b'0' + n % 10) ∷ out) (ground arith) ∙ last_digit n out)
]

pub digits-itoa : (n : ℕ) → digits 0 (itoa n) ≡ some n
unfolding itoa digits
digits-itoa n = digits-itoa_fuel (suc n) n [] (omega arith)

atoi_number : (s : Text) {n : ℕ} → digits 0 s ≡ some n → n ≤ max_int → s ≢ [] → atoi s ≡ n
unfolding atoi digits
atoi_number [] e h ne = absurd (ne refl)
atoi_number (c ∷ []) e h ne = ground arith
atoi_number (c ∷ d ∷ s) e h ne = ground arith

itoa_fuel-ne : (f n c : ℕ) (out : Text) → is_empty (itoa_fuel f n (c ∷ out)) ≡ false
unfolding itoa_fuel
itoa_fuel-ne zero n c out = refl
itoa_fuel-ne (suc f) n c out = elim (Bool-cases (ltb n 10)) [
  | inl e ↦ rw (itoa_fuel, e)
  | inr e ↦ rw (itoa_fuel, e) (itoa_fuel-ne f (n / 10) (b'0' + n % 10) (c ∷ out))
]

pub itoa-ne : (n : ℕ) → is_empty (itoa n) ≡ false
unfolding itoa itoa_fuel
itoa-ne n = elim (Bool-cases (ltb n 10)) [
  | inl e ↦ rw (itoa_fuel, e)
  | inr e ↦ rw (itoa_fuel, e) (itoa_fuel-ne n (n / 10) (b'0' + n % 10) [])
]

atoi-itoa : (n : ℕ) → n ≤ max_int → atoi (itoa n) ≡ n
atoi-itoa n h = atoi_number (itoa n) (digits-itoa n) h (λ e. cc (ap is_empty e, itoa-ne n))

module _ {ℓ} {A : Type ℓ} where
  length-insert_sorted :
      (le : A → A → Bool) (x : A) (xs : List A) → length (insert_sorted le x xs) ≡ suc (length xs)
  unfolding insert_sorted
  length-insert_sorted le x [] = refl
  length-insert_sorted le x (y ∷ ys) = elim (Bool-cases (le x y)) [
    | inl e ↦ rw (insert_sorted, e)
    | inr e ↦ rw (insert_sorted, e) (ap suc (length-insert_sorted le x ys))
  ]

  length-order_by : (le : A → A → Bool) (xs : List A) → length (order_by le xs) ≡ length xs
  unfolding order_by
  length-order_by le [] = refl
  length-order_by le (x ∷ xs) =
      length-insert_sorted le x (order_by le xs) ∙ ap suc (length-order_by le xs)

  pub halves : (n : ℕ) (xs : List A) → xs ≡ take n xs ++ drop n xs
  halves zero xs = refl
  halves (suc n) [] = refl
  halves (suc n) (x ∷ xs) = ap (λ z. x ∷ z) (halves n xs)

  drop-split : (n o e : ℕ) (xs : List A) → e ≡ o + n → drop o xs ≡ take n (drop o xs) ++ drop e xs
  drop-split n zero e xs h = let same : e ≡ n = omega (arith, h) in rw same (halves n xs)
  drop-split n (suc o) zero xs h = absurd (omega (arith, h))
  drop-split zero (suc o) (suc e) [] h = refl
  drop-split (suc n) (suc o) (suc e) [] h = refl
  drop-split n (suc o) (suc e) (x ∷ xs) h = drop-split n o e xs (omega (arith, h))

objects_of-append :
    (c : Call) (dir : Names) (xs ys : List (Text × Node))
    → objects_of c dir (xs ++ ys) ≡ objects_of c dir xs ++ objects_of c dir ys
unfolding objects_of
objects_of-append c dir [] ys = refl
objects_of-append c dir ((n, file b t) ∷ xs) ys = rw (objects_of-append c dir xs ys)
objects_of-append c dir ((n, folder) ∷ xs) ys = rw (objects_of-append c dir xs ys)
objects_of-append c dir ((n, link e) ∷ xs) ys = objects_of-append c dir xs ys

is_cancelled-never :
    (c : Call) (turn : ℕ) (xs : List (Text × Node))
    → ((k : ℕ) → c.cancelled k ≡ false)
    → is_cancelled c turn xs ≡ false
unfolding is_cancelled
is_cancelled-never c turn [] h = refl
is_cancelled-never c turn (x ∷ xs) h = rw (h turn) (is_cancelled-never c (suc turn) xs h)

-- The objects of all pages, one call behind the other while there is a cursor.
unfoldable pub all_pages : ℕ → (Text → Option (Result Page)) → Text → Option (Result (List Object))
all_pages zero ask cursor = none
all_pages (suc fuel) ask cursor = elim (ask cursor) [
  | none ↦ none
  | some (err e) ↦ some (err e)
  | some (ok page) ↦
      if is_empty page.next_cursor
      then some (ok page.objects)
      else elim (all_pages fuel ask page.next_cursor) [
        | none ↦ none
        | some (err e) ↦ some (err e)
        | some (ok rest) ↦ some (ok (page.objects ++ rest))
      ]
]

module _ (c : Call) (dir : Names) (entries : List (Text × Node)) (limit : ℕ)
    (never : (k : ℕ) → c.cancelled k ≡ false) (short : length entries ≤ max_int)
    (pos : 0 < limit) where
  abbrev ask : Text → Option (Result Page)
  ask cursor = page_of c dir entries (atoi cursor) limit

  -- Where a page ends.
  abbrev page_end : ℕ → ℕ
  page_end o = min (o + limit) (length entries)

  page_at :
      (o : ℕ)
      → o ≤ length entries
      → page_of c dir entries o limit
        ≡ some (
            ok (record {
              objects = objects_of c dir (take (page_end o - o) (drop o entries));
              next_cursor = if ltb (page_end o) (length entries) then itoa (page_end o) else [];
            }))
  unfolding page_of
  page_at o h =
      let ahead : ltb (page_end o) o ≡ false = ground arith in
      rw (page_of, ahead, is_cancelled-never c 0 (take (page_end o - o) (drop o entries)) never)

  rest_of :
      (o : ℕ)
      → o ≤ length entries
      → objects_of c dir (drop o entries)
        ≡ objects_of c dir (take (page_end o - o) (drop o entries))
          ++ objects_of c dir (drop (page_end o) entries)
  rest_of o h =
      ap (objects_of c dir) (drop-split (page_end o - o) o (page_end o) entries (ground arith))
      ∙ objects_of-append c dir (take (page_end o - o) (drop o entries)) (drop (page_end o) entries)

  drop_all : drop (length entries) entries ≡ []
  drop_all = go entries
    where
      go : (xs : List (Text × Node)) → drop (length xs) xs ≡ []
      go [] = refl
      go (x ∷ xs) = go xs

  pages_from :
      (fuel o : ℕ) (cursor : Text)
      → atoi cursor ≡ o
      → o ≤ length entries
      → length entries < o + fuel
      → all_pages fuel ask cursor ≡ some (ok (objects_of c dir (drop o entries)))
  unfolding all_pages objects_of
  pages_from zero o cursor e le h = absurd (omega arith)
  pages_from (suc fuel) o cursor e le h = elim (Bool-cases (ltb (page_end o) (length entries))) [
    | inl more ↦
        let ih =
          pages_from fuel (page_end o) (itoa (page_end o)) (atoi-itoa (page_end o) (ground arith))
            (ground arith) (ground arith) in
        rw (all_pages, e, page_at o le, more, itoa-ne (page_end o), ih, rest_of o le)
    | inr last ↦
        let all : page_end o ≡ length entries = ground arith in
        rw (all_pages, e, page_at o le, last, rest_of o le, all, drop_all, append-nil)
  ]

atoi_nil : atoi [] ≡ 0
unfolding atoi
atoi_nil = refl

-- All pages together have the objects of the sorted entries.
pub list-objects :
    (c : Call) (dir : Text) (limit : ℕ) (d : Disk) {rel : Names} {entries : List (Text × Node)}
    (fuel : ℕ)
    → ((k : ℕ) → c.cancelled k ≡ false)
    → clean dir ≡ ok rel
    → read_dir rel d ≡ done entries
    → length entries ≤ max_int
    → length entries < fuel
    → all_pages fuel (λ cursor. list c dir cursor limit d) []
      ≡ some (ok (objects_of c rel (order_by by_name entries)))
unfolding list
list-objects c dir limit d {rel = rel} {entries = entries} fuel never accepted read short h =
    let same : length (order_by by_name entries) ≡ length entries =
      length-order_by by_name entries in
    rw (list, accepted, read)
      (pages_from c rel (order_by by_name entries) (page_limit limit) never
        (omega (arith, same, short)) (ground arith) fuel 0 [] atoi_nil (omega arith)
        (omega (arith, same, h)))
