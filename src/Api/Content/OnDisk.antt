-- ===== src/Api/Content/OnDisk.antt =====
-- internal/api/handlers_media.go, `handleMediaContent`, over storages that are local directories.
use ialbum.Api.Content.Parts.{
  open_file-ranged, length-open_file, sent, length-sent, part_length-sent, part_last-sent,
  section-sent,
}
use ialbum.Base.{
  ℕ, ◌+◌, ◌-◌, ◌≤◌, ◌<◌, Bool, true, List, [], ◌∷◌, ◌++◌, Option, none, some, inl, inr, ◌⊎◌, ◌≡◌,
  refl, sym, ap, ◌∙◌, arith, if◌then◌else◌, leb, length, Bool-cases,
}
use ialbum.Text.{Text, codes, itoa}
use ialbum.Storage
use ialbum.Storage.{Result, Result-cases, ok, err, ◌>>=◌, other, unsupported, ByteRange, Object}
use ialbum.Storage.Local.{Call, section, ranged, open_file}
use ialbum.Media.Types as Types
use ialbum.Media.Types.{Binding, Media, Db}
use ialbum.Media.Names.{join_path}
use ialbum.Media.Index.{View, get_album, get_media}
use ialbum.Media.Open.{Readers, open_media}
use ialbum.Media.Transfer.OnDisk.{Disks}
use ialbum.Api.{Parsed, whole, part, refused, parse_range}
use ialbum.Api.Ranges.{IsInFile, parse_range-IsInFile}
use ialbum.Api.Content
use ialbum.Api.Content.{
  Served, Reply, served, unsatisfiable, range_text, is_cut, difference, part_length, part_last,
  resource_error, serve, open_and_serve, reply_to, handle_media_content,
}

-- The local provider as what the handler opens.
unfoldable pub local_readers : Call → Readers Disks
unfolding open_file
local_readers c = record {
  provide = λ id w. ok tt;
  open_file = λ id name br w. open_file c name br (w id);
}

-- An answer with the bytes `bytes`, which a client gets unless it asks for the headers alone.
pub record IsAnswer (head : Bool) (status : ℕ) (range : Option Text) (bytes : List ℕ)
    (reply : Reply) : Type 0 where
  pub answer : Served
  pub served_as : reply ≡ served answer
  pub has_status : answer.status ≡ status
  pub has_range : answer.content_range ≡ range
  pub has_length : answer.content_length ≡ itoa (length bytes)
  pub has_body : answer.body ≡ (if head then [] else bytes)

-- What the Range header asks for, and the answer to it, of a file with the bytes `content`.
pub IsReply : Bool → Media → List ℕ → Parsed → Reply → Type 0
IsReply head m content whole reply = IsAnswer head 200 none content reply
IsReply head m content (part br) reply =
    (br.start < length content
      × 1 ≤ length (sent br content)
      × IsAnswer head 206
          (some (
            range_text (itoa br.start) (itoa (br.start + length (sent br content) - 1))
              (itoa (length content))))
          (sent br content) reply)
    ⊎ (length content ≤ br.start × (reply ≡ Content.failed 500 (codes "internal_error")))
IsReply head m content (refused e) reply = reply ≡ unsatisfiable (codes "bytes */" ++ itoa m.size)

module _ (c : Call) (path_escape : Text → Text) (download head : Bool) (id : Text) (s : Db × Disks)
    {m : Media} {v : View} {primary : Binding} {content : List ℕ} {obj : Object}
    (found_media : get_media id s.0 ≡ Types.ok m)
    (found_album : get_album m.album_id s.0 ≡ Types.ok v) (has_primary : v.primary ≡ some primary)
    (opens : open_file c
        (join_path (primary.root_path ∷ m.relative_path ∷ []))
        none
        (s.1 primary.storage_id)
      ≡ ok (content, obj)) where
  abbrev path : Text
  path = join_path (primary.root_path ∷ m.relative_path ∷ [])

  open_media-ok :
      (br : Option ByteRange) {o : List ℕ × Object}
      → ranged br obj content ≡ ok o
      → open_media (local_readers c) id br s ≡ Types.ok (o, m)
  unfolding open_media local_readers
  open_media-ok br h =
      let r = open_file-ranged c path br (s.1 primary.storage_id) opens ∙ h in
      rw (found_media, open_media) (rw found_album (rw has_primary (rw r refl)))

  open_media-err :
      (br : Option ByteRange) {e : Storage.Error}
      → ranged br obj content ≡ err e
      → open_media (local_readers c) id br s ≡ Types.err (Types.storage_error e)
  unfolding open_media local_readers
  open_media-err br h =
      let r = open_file-ranged c path br (s.1 primary.storage_id) opens ∙ h in
      rw (found_media, open_media) (rw found_album (rw has_primary (rw r refl)))

  same_size : length content ≡ obj.size
  same_size = length-open_file c path (s.1 primary.storage_id) opens

  whole-IsAnswer :
      IsAnswer head 200 none content
        (open_and_serve (local_readers c) path_escape download head id none m s)
  unfolding open_and_serve serve ranged
  whole-IsAnswer =
      rw (open_media-ok none refl, open_and_serve)
        (record {
          answer = serve (local_readers c) path_escape download head none m content obj;
          served_as = refl;
          has_status = refl;
          has_range = refl;
          has_length = ap itoa (sym same_size);
          has_body = refl;
        })

  part-IsAnswer :
      (br : ByteRange)
      → br.start < length content
      → 1 ≤ br.length
      → IsAnswer head 206
          (some (
            range_text
              (itoa br.start)
              (itoa (br.start + length (sent br content) - 1))
              (itoa (length content))))
          (sent br content)
          (open_and_serve (local_readers c) path_escape download head id (some br) m s)
  unfolding open_and_serve serve ranged
  part-IsAnswer br l p =
      rw (open_media-ok (some br) (section-sent br content l p obj same_size), open_and_serve)
        (record {
          answer =
              serve (local_readers c) path_escape download head (some br) m (sent br content)
                (record obj { range_applied = true });
          served_as = refl;
          has_status = refl;
          has_range =
              ap (λ n. some (range_text (itoa br.start) (part_last br n) (itoa n))) (sym same_size)
              ∙ ap (λ t. some (range_text (itoa br.start) t (itoa (length content))))
                  (part_last-sent br content l p);
          has_length = ap (part_length br) (sym same_size) ∙ part_length-sent br content l p;
          has_body = refl;
        })

  part-IsReply :
      (br : ByteRange)
      → 1 ≤ br.length
      → IsReply head m content
          (part br)
          (open_and_serve (local_readers c) path_escape download head id (some br) m s)
  unfolding IsReply open_and_serve ranged section resource_error
  part-IsReply br p = elim (Bool-cases (leb obj.size br.start)) [
    | inl past ↦
        let behind : length content ≤ br.start = ground (arith, past, same_size) in
        inr (
          behind,
          rw
              (
                open_media-err (some br) {e = other (codes "invalid range")}
                    (rw (section, past) refl),
                open_and_serve,
              )
              refl,
        )
    | inr inside ↦
        let l : br.start < length content = ground (arith, inside, same_size) in
        inl (l, ground (arith, l, p, length-sent br content l p), part-IsAnswer br l p)
  ]

  -- Over local directories: what a client gets of a media item whose file is there.
  pub handle_media_content-IsReply :
      (range : Text)
      → IsReply head m content
          (parse_range range m.size)
          (handle_media_content (local_readers c) path_escape download head id range s)
  unfolding handle_media_content IsReply
  handle_media_content-IsReply range =
      rw (found_media, handle_media_content)
        (reply (parse_range range m.size) (parse_range-IsInFile range m.size))
    where
      reply :
          (p : Parsed)
          → IsInFile m.size p
          → IsReply head m content p (reply_to (local_readers c) path_escape download head id m s p)
      reply (refused e) i = refl
      reply whole i = whole-IsAnswer
      reply (part br) i = part-IsReply br i.0
