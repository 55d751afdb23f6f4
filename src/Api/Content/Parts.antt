-- ===== src/Api/Content/Parts.antt =====
-- internal/storage/local/local.go, `Open`, of a range, and the headers of
-- internal/api/handlers_media.go about it.
use ialbum.Base.{
  ℕ, ◌+◌, ◌-◌, ◌≤◌, ◌<◌, true, false, List, Option, none, inl, inr, ◌≡◌, refl, sym, ap, ◌∙◌, arith,
  if◌then◌else◌, ltb, leb, length, take, drop, length-take, length-drop, take_all, Bool-cases,
}
use ialbum.Text.{Text, itoa}
use ialbum.Storage.{Result, Result-cases, ok, err, ◌>>=◌, unsupported, ByteRange, Object}
use ialbum.Storage.Disk.{
  Names, Disk, Node, file, folder, link, OsResult, done, failed, lstat, follow,
}
use ialbum.Storage.Local.{
  Call, clean, from_info, map_error, object_of, stat_object, open_bytes, section, ranged, open_file,
}
use ialbum.Api.Content.{is_cut, difference, part_length, part_last}

-- The steps of an `Open` of a whole file.
open_file-steps :
    (c : Call) (name : Text) (d : Disk) {content : List ℕ} {obj : Object}
    → open_file c name none d ≡ ok (content, obj)
    → (stat_object c name d ≡ ok obj) × (obj.is_dir ≡ false) × (open_bytes name d ≡ ok content)
unfolding open_file ranged
open_file-steps c name d {content = content} {obj = obj} h =
    steps (stat_object c name d) (open_bytes name d) h
  where
    steps :
        (r : Result Object) (b : Result (List ℕ))
        → (r >>= λ o. if o.is_dir then err unsupported else (b >>= ranged none o))
          ≡ ok (content, obj)
        → (r ≡ ok obj) × (obj.is_dir ≡ false) × (b ≡ ok content)
    steps (err e) b q = absurd (cc q)
    steps (ok o) b q = elim (Bool-cases o.is_dir) [
      | inl dir ↦
          absurd (cc (q, ap (λ t. if t then err unsupported else (b >>= ranged none o)) dir))
      | inr dir ↦
          read o b dir
            (sym (ap (λ t. if t then err unsupported else (b >>= ranged none o)) dir) ∙ q)
    ]
      where
        read :
            (o : Object) (b : Result (List ℕ))
            → o.is_dir ≡ false
            → (b >>= ranged none o) ≡ ok (content, obj)
            → (ok o ≡ ok obj) × (obj.is_dir ≡ false) × (b ≡ ok content)
        read o (err e) dir q = absurd (cc q)
        read o (ok bytes) dir q = (cc q, cc (dir, q), cc q)

-- Any range of a file is a range of the bytes that it has as a whole.
pub open_file-ranged :
    (c : Call) (name : Text) (br : Option ByteRange) (d : Disk) {content : List ℕ} {obj : Object}
    → open_file c name none d ≡ ok (content, obj)
    → open_file c name br d ≡ ranged br obj content
unfolding open_file
open_file-ranged c name br d h =
    let (v, dir, b) = open_file-steps c name d h in rw (v, open_file) (rw dir (rw b refl))

bytes_at : OsResult Node → Result (List ℕ)
bytes_at (failed e) = err (map_error e)
bytes_at (done (file b t)) = ok b
bytes_at (done folder) = err unsupported
bytes_at (done (link e)) = err (map_error e)

object_at : Call → Names → OsResult Node → Result Object
object_at c rel (failed e) = err (map_error e)
object_at c rel (done x) = from_info c rel x

size_at :
    (c : Call) (rel : Names) (r : OsResult Node) {content : List ℕ} {obj : Object}
    → object_at c rel r ≡ ok obj
    → obj.is_dir ≡ false
    → bytes_at (follow r) ≡ ok content
    → length content ≡ obj.size
unfolding bytes_at object_at from_info object_of
size_at c rel (failed e) v dir b = absurd (cc v)
size_at c rel (done (file x t)) v dir b = cc (v, b)
size_at c rel (done folder) v dir b = absurd (cc b)
size_at c rel (done (link e)) v dir b = absurd (cc b)

-- The object that is opened has the size of its bytes.
pub length-open_file :
    (c : Call) (name : Text) (d : Disk) {content : List ℕ} {obj : Object}
    → open_file c name none d ≡ ok (content, obj)
    → length content ≡ obj.size
unfolding stat_object open_bytes bytes_at object_at
length-open_file c name d h =
    let (v, dir, b) = open_file-steps c name d h in
    elim (Result-cases (clean name)) [
      | inr (e, n) ↦ absurd (cc (rw (n, stat_object) at v))
      | inl (rel, n) ↦
          size_at c rel (lstat rel d) (rw (n, stat_object) at v) dir (rw (n, open_bytes) at b)
    ]

-- The bytes of a range, as far as there are any.
abbrev pub sent : ByteRange → List ℕ → List ℕ
sent br content = take br.length (drop br.start content)

-- A range that asks for more than there is gets what is there from its start on.
cut-size :
    (br : ByteRange) (size : ℕ)
    → 1 ≤ br.length
    → is_cut br size ≡ true
    → size < br.start + br.length
cut-size br size p e = ground (arith, p, e)

fits-size : (br : ByteRange) (size : ℕ) → is_cut br size ≡ false → br.start + br.length ≤ size
fits-size br size e = ground (arith, e)

module _ (br : ByteRange) (content : List ℕ) (l : br.start < length content)
    (p : 1 ≤ br.length) where
  sent-cut :
      is_cut br (length content) ≡ true
      → sent br content ≡ take (length content - br.start) (drop br.start content)
  sent-cut e =
      let n = length-drop br.start content in
      take_all br.length (drop br.start content)
        (omega (arith, n, cut-size br (length content) p e))
      ∙ sym (take_all (length content - br.start) (drop br.start content) (omega (arith, n)))

  pub length-sent :
      length (sent br content)
      ≡ (if is_cut br (length content) then length content - br.start else br.length)
  length-sent =
      let n = length-drop br.start content in
      elim (Bool-cases (is_cut br (length content))) [
        | inl e ↦ rw e (
            ap length (sent-cut e)
            ∙ length-take (length content - br.start) (drop br.start content) (omega (arith, n)))
        | inr e ↦ rw e (
            length-take br.length (drop br.start content)
              (omega (arith, n, fits-size br (length content) e)))
      ]

  difference_le : (a b : ℕ) → b ≤ a → difference a b ≡ itoa (a - b)
  difference_le a b h = elim (Bool-cases (ltb a b)) [
    | inl e ↦ absurd (ground (arith, e, h))
    | inr e ↦ rw e refl
  ]

  pub part_length-sent : part_length br (length content) ≡ itoa (length (sent br content))
  part_length-sent = elim (Bool-cases (is_cut br (length content))) [
    | inl e ↦ rw e (
        difference_le (length content) br.start (omega (arith, l))
        ∙ ap itoa (sym (rw e at length-sent)))
    | inr e ↦ rw e (ap itoa (sym (rw e at length-sent)))
  ]

  pub part_last-sent :
      part_last br (length content) ≡ itoa (br.start + length (sent br content) - 1)
  part_last-sent = elim (Bool-cases (is_cut br (length content))) [
    | inl e ↦
        let n = rw e at length-sent in
        rw e (difference_le (length content) 1 (omega (arith, l)) ∙ ap itoa (omega (arith, n, l)))
    | inr e ↦
        let n = rw e at length-sent in
        rw e
          (difference_le (br.start + br.length) 1 (omega (arith, p)) ∙ ap itoa (omega (arith, n)))
  ]

  -- What `section` takes is what the range asks for.
  pub section-sent :
      (obj : Object)
      → length content ≡ obj.size
      → section br obj content ≡ ok (sent br content, record obj { range_applied = true })
  unfolding section
  section-sent obj e =
      let inside : leb obj.size br.start ≡ false = ground (arith, l, e) in
      elim (Bool-cases (is_cut br obj.size)) [
        | inl c ↦
            rw (section, inside)
              (rw c (
                ap {B = Result (List ℕ × Object)} (λ b. ok (b, record obj { range_applied = true }))
                  (ap (λ n. take (n - br.start) (drop br.start content)) (sym e)
                    ∙ sym (sent-cut (ap (is_cut br) e ∙ c)))))
        | inr c ↦ rw (section, inside) (rw c refl)
      ]
