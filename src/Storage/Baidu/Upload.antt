-- ===== src/Storage/Baidu/Upload.antt =====
-- internal/storage/baidu/baidu.go: `Put` in blocks, `Mkdir`, `Move` and `Delete`.
use ialbum.Base.{
  ℕ, zero, suc, ◌*◌, Bool, true, false, ◌||◌, List, [], ◌∷◌, Option, none, some, leb, ◌==◌,
  if◌then◌else◌, length, take, drop,
}
use ialbum.Text.{Text, codes, text_eq, is_empty, itoa}
use ialbum.Time.{second}
use ialbum.Storage.{Result, ok, err, Error, Object}
use ialbum.Storage.Path.{dot, normalize_relative}
use ialbum.Storage.Webdav.{dir_of}
use ialbum.Storage.Local.{canceled}
use ialbum.Media.Names.{base}
use ialbum.Storage.Baidu.Calls.{ℤ, pos, negsuc, Call, pure, lift, ◌>>=◌, ◌>>◌}
use ialbum.Storage.Baidu.{
  precreate, upload_part, create_file, create_dir, move_file, delete_file, Precreated, Created, Env,
  Net, map_errno, mebibyte, remote_path, read_answer, request, json_request, access_token,
}
use ialbum.Storage.Baidu.Reads.{check}

abbrev pub block_size : ℕ
block_size = 4194304

-- Source: its Size, the error of its Open, and what the reads give, up to the end or to an error. Both
-- passes over it read the same.
pub record Source : Type 0 where
  pub size : ℕ
  pub open_error : Option Error
  pub content : List ℕ
  pub read_error : Option Error

abbrev pub opened : Source → Result (List ℕ)
opened source = elim source.open_error [ some e ↦ err e | none ↦ ok source.content ]

-- One read of at most a block: io.ReadAll of an io.LimitReader; io.CopyN with its errors sorted out
unfoldable pub read_block : List ℕ → Option Error → Result (List ℕ)
read_block content ends =
    if leb block_size (length content)
    then ok (take block_size content)
    else elim ends [ some e ↦ err e | none ↦ ok content ]

-- io.ErrUnexpectedEOF
abbrev is_unexpected_eof : Error → Bool
is_unexpected_eof (Error.other t) = text_eq t (codes "unexpected EOF")
is_unexpected_eof e = false

-- What blockHashes takes for an error of a read; the loop that sends the blocks takes every one.
unfoldable pub hash_error : Option Error → Option Error
hash_error none = none
hash_error (some e) = if is_unexpected_eof e then none else some e

abbrev pub prepend : Text → Result (List Text) → Result (List Text)
prepend h (ok hs) = ok (h ∷ hs)
prepend h (err e) = err e

-- The loop of blockHashes: a block that is not full is the last one.
unfoldable pub hash_blocks : Env → ℕ → ℕ → List ℕ → Option Error → Result (List Text)
unfolding read_block
hash_blocks env zero turn content ends = ok []
hash_blocks env (suc fuel) turn content ends =
    let rest = hash_blocks env fuel (suc turn) (drop block_size content) ends in
    if env.cancelled turn then err canceled else elim (read_block content ends) [
      | err e ↦ err e
      | ok block ↦
          if leb block_size (length block)
          then prepend (env.md5 block) rest
          else ok (if is_empty block then [] else env.md5 block ∷ [])
    ]

-- An empty source has one block.
abbrev pub or_one : Env → Result (List Text) → Result (List Text)
or_one env (err e) = err e
or_one env (ok []) = ok (env.md5 [] ∷ [])
or_one env (ok (h ∷ hs)) = ok (h ∷ hs)

-- blockHashes
unfoldable pub block_hashes : Env → Source → Result (List Text)
unfolding hash_blocks hash_error
block_hashes env source = elim source.open_error [
  | some e ↦ err e
  | none ↦ or_one env (
      hash_blocks env (suc (length source.content)) 0 source.content (hash_error source.read_error))
]

abbrev is_index : ℕ → ℤ → Bool
is_index i (pos n) = i == n
is_index i (negsuc n) = false

unfoldable pub lists : ℕ → List ℤ → Bool
lists i [] = false
lists i (n ∷ ns) = is_index i n || lists i ns

-- Baidu asks for some blocks; no answer asks for all.
unfoldable pub is_needed : List ℤ → ℕ → Bool
unfolding lists
is_needed [] i = true
is_needed (n ∷ ns) i = lists i (n ∷ ns)

unfoldable pub made : Env → Text → Created → Object
made env rel done = record {
  id = itoa done.fs_id;
  relative_path = rel;
  mime_type = env.mime_from_name rel;
  etag = done.md5;
  native_checksum = done.md5;
  size = done.size;
  modified_at = done.mtime * second;
  is_dir = false;
  range_applied = false;
}

abbrev is_made : ℤ → Result (Unit {0})
is_made (pos n) = check (pos n)
is_made (negsuc n) = if n == 7 then ok tt else check (negsuc n)

module _ (env : Env) {W : Type 0} (net : Net W) where
  -- Mkdir
  unfoldable pub mkdir : Text → Call W (Unit {0})
  unfolding access_token json_request map_errno
  mkdir name = do
    rel ← lift (normalize_relative name)
    if is_empty rel || text_eq rel dot then pure tt else (do
      token ← access_token env net
      errno ← json_request env net env.read_errno (create_dir token (remote_path env.root rel))
      lift (is_made errno))

  -- uploadBlock
  unfoldable pub upload_block : Text → Text → Text → ℕ → List ℕ → Call W (Unit {0})
  unfolding request read_answer map_errno
  upload_block token path upload_id index block = do
    answer ← request env net (upload_part token path upload_id index block)
    errno ← lift (read_answer mebibyte env.read_errno answer)
    lift (check errno)

  -- The loop over the hashes: the blocks are read again, and those that are needed sent.
  unfoldable pub send_blocks :
      Text → Text → Text → List ℤ → ℕ → List Text → List ℕ → Option Error → Call W (Unit {0})
  unfolding read_block upload_block is_needed
  send_blocks token path upload_id needed i [] content ends = pure tt
  send_blocks token path upload_id needed i (h ∷ hashes) content ends = do
    block ← lift (read_block content ends)
    if is_needed needed i then upload_block token path upload_id i block else pure tt
    send_blocks token path upload_id needed (suc i) hashes (drop block_size content) ends

  -- Put behind the answer to `precreate`
  unfoldable pub complete : Text → Text → Source → Bool → List Text → Precreated → Call W Object
  unfolding json_request send_blocks map_errno made
  complete token rel source rename hashes pre =
      let path = remote_path env.root rel in
      do
        content ← lift (opened source)
        send_blocks token path pre.upload_id pre.blocks 0 hashes content source.read_error
        done ←
            json_request env net env.read_created
              (create_file token path source.size pre.upload_id hashes rename)
        lift (check done.errno)
        pure (made env rel done)

  unfoldable pub upload : Text → Text → Source → Bool → List Text → Call W Object
  unfolding json_request complete map_errno
  upload token rel source rename hashes = do
    pre ←
        json_request env net env.read_precreated
          (precreate token (remote_path env.root rel) source.size hashes rename)
    lift (check pre.errno)
    complete token rel source rename hashes pre

  -- Put, where `rename` is a conflict policy of "rename"
  unfoldable pub put : Text → Source → Bool → Call W Object
  unfolding mkdir block_hashes access_token upload
  put name source rename = do
    rel ← lift (normalize_relative name)
    mkdir (dir_of rel)
    hashes ← lift (block_hashes env source)
    token ← access_token env net
    upload token rel source rename hashes

  -- Move by fileManager
  unfoldable pub move : Text → Text → Bool → Call W (Unit {0})
  unfolding access_token json_request map_errno
  move from to overwrite = do
    token ← access_token env net
    rel ← lift (normalize_relative to)
    errno ← json_request env net env.read_errno (
        move_file token (remote_path env.root from) (dir_of (remote_path env.root rel)) (base rel)
          overwrite)
    lift (check errno)

  -- Delete
  unfoldable pub delete : Text → Call W (Unit {0})
  unfolding access_token json_request map_errno
  delete name = do
    token ← access_token env net
    errno ← json_request env net env.read_errno (delete_file token (remote_path env.root name))
    lift (check errno)
