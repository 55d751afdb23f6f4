-- ===== src/Storage/Local/Reads.antt =====
-- What `Open` reads of a file that `Put` has stored.
use ialbum.Base.{ℕ, Bool, false, List, inl, inr, Option, some, ◌≡◌, ◌∙◌, Bool-cases, length}
use ialbum.Text.{Text}
use ialbum.Storage.{Result, ok, ◌>>=◌, Object, ByteRange}
use ialbum.Storage.Disk.{Names, Disk, file, look, is_nil}
use ialbum.Storage.Disk.Laws.{IsTree, lstat-of_look, names_eq_refl}
use ialbum.Storage.Local.{
  Call, Source, clean, to_slash, object_of, stat_object, from_info, open_bytes, ranged, open_file,
}
use ialbum.Storage.Local.Change.{put, put_at}
use ialbum.Storage.Local.Put.{concat, put_at_cases, Outcome}

-- Open of a file that is there.
open_found :
    (c : Call) (name : Text) (br : Option ByteRange) (d : Disk) {rel : Names} {b : List ℕ} {w : ℕ}
    → clean name ≡ ok rel
    → IsTree d
    → look rel d ≡ some (file b w)
    → open_file c name br d ≡ ranged br (object_of c (to_slash rel) (length b) w false) b
unfolding open_file stat_object open_bytes from_info object_of
open_found c name br d {rel = rel} h t e =
    rw (open_file, stat_object, open_bytes, h, ◌>>=◌, lstat-of_look rel d t e)

stored_at :
    (c : Call) (rel : Names) (b : List ℕ) (d : Disk) (r : Disk × Result Object) {obj : Object}
    → r.1 ≡ ok obj
    → Outcome c rel b d r
    → IsTree r.0 × (look rel r.0 ≡ some (file b c.now))
stored_at c rel b d r h (t, inl ((e, v), k)) = absurd (cc (h, v))
stored_at c rel b d r h (t, inr (made, k, (v, adds))) = (t, adds rel ∙ rw (names_eq_refl rel))

-- After a `Put` that returns an object, `Open` of the same name gives the bytes of the source, or the
-- part of them that the range asks for.
pub open_file-put :
    (c c' : Call) (name : Text) (source : Source) (fail : Bool) (d : Disk) (br : Option ByteRange)
    {rel : Names} {obj : Object}
    → IsTree d
    → clean name ≡ ok rel
    → (put c name source fail d).1 ≡ ok obj
    → open_file c' name br (put c name source fail d).0
      ≡ ranged br
          (object_of c' (to_slash rel) (length (concat source.reads)) c.now false)
          (concat source.reads)
unfolding put
open_file-put c c' name source fail d br {rel = rel} t h e = elim (Bool-cases (is_nil rel)) [
  | inl v ↦ absurd (cc (rw (put, h, v) at e))
  | inr v ↦
      let (t', here') =
        stored_at c rel (concat source.reads) d (put_at c rel source fail d) (rw (put, h, v) at e)
          (put_at_cases c rel source fail d t) in
      rw (put, h, v) (open_found c' name br _ h t' here')
]
