-- ===== src/Storage/Baidu/Tests.antt =====
-- A Baidu that answers every request, and one that lists a directory.
use ialbum.Base.{ℕ, List, [], ◌∷◌, ◌++◌, none, some, false, ◌≡◌, refl, arith, take, drop, map}
use ialbum.Text.{Text, codes, text_eq, itoa}
use ialbum.Time.{Time, hour}
use ialbum.Sql.{find}
use ialbum.Storage.{Result, ok, err, not_found}
use ialbum.Storage.Path.{normalize_relative}
use ialbum.Storage.Webdav.{dir_of}
use ialbum.Manager.{Token}
use ialbum.Storage.Baidu.Calls.{pos, Session, ◌>>=◌, ◌>>◌}
use ialbum.Storage.Baidu.{
  access_token, json_request, Request, list_files, Response, Env, Net, Item, Listed, remote_path,
  object_of,
}
use ialbum.Storage.Baidu.Reads.{stat, is_at}
use ialbum.Storage.Baidu.Upload.{Source, put}
use ialbum.Storage.Baidu.Find.{Serves, answer, stat_finds}
use ialbum.Storage.Baidu.Blocks.Notes.{noting}
use ialbum.Storage.Baidu.Blocks.Sent.{Sent, put-Sent}

abbrev item : ℕ → Text → Item
item n name = record {
  fs_id = n;
  path = codes "/albums/2024/" ++ name;
  name = name;
  size = 3;
  is_dir = 0;
  mtime = 0;
  md5 = [];
}

abbrev items : List Item
items = item 7 (codes "b.jpg") ∷ item 8 (codes "a.jpg") ∷ []

abbrev env : Env
env = record {
  app_key = codes "app";
  secret_key = codes "secret";
  root = codes "/albums/";
  read_token = λ b. err not_found;
  read_listed = λ b. ok (record { errno = pos 0; items = items });
  read_metas = λ b. ok (record { errno = pos 0; dlinks = [] });
  read_precreated = λ b. ok (record { errno = pos 0; upload_id = codes "u"; blocks = pos 0 ∷ [] });
  read_created =
      λ b. ok (record { errno = pos 0; fs_id = 9; path = []; size = 3; md5 = []; mtime = 0 });
  read_errno = λ b. ok (pos 0);
  md5 = λ b. b;
  query_escape = λ t. t;
  mime_from_name = λ t. codes "image/jpeg";
  cancelled = λ n. false;
}

abbrev token : Token
token = record { access_token = codes "t"; refresh_token = codes "r"; expires_at = hour }

abbrev net : Net Time
net = record {
  now = λ w. w;
  serve = λ r w. (w, ok (record { status = 200; content = [] }));
  save_token = none;
}

abbrev source : Source
source = record { size = 3; open_error = none; content = 1 ∷ 2 ∷ 3 ∷ []; read_error = none }

abbrev start : Session (List Request × Time)
start = record { token = token; world = ([], 0) }

put-Sent_example :
    (rel : Text) × (normalize_relative (codes "2024/c.jpg") ≡ ok rel)
    × Sent env net source
        (remote_path env.root rel)
        false
        []
        (put env (noting net) (codes "2024/c.jpg") source false start).0.world.0
unfolding put noting ◌>>=◌ ◌>>◌ normalize_relative ialbum.Text.contains ialbum.Text.replace_all
    ialbum.Text.trim_space ialbum.Text.text_eq ialbum.Text.has_prefix
    ialbum.Storage.Path.accept_cleaned ialbum.Storage.Path.clean ialbum.Text.join ialbum.Text.split
    dir_of remote_path ialbum.Storage.Baidu.map_errno ialbum.Storage.Baidu.read_answer
    ialbum.Text.itoa ialbum.Text.trim ialbum.Text.trim_prefix ialbum.Storage.Baidu.Upload.made
put-Sent_example = put-Sent env net (codes "2024/c.jpg") source false [] token 0 refl

-- A directory that is listed from the start in the request.
abbrev read_part : List ℕ → Result Listed
read_part (start ∷ limit ∷ rest) =
    ok (record { errno = pos 0; items = take limit (drop start items) })
read_part b = err not_found

abbrev env_of_parts : Env
env_of_parts = record env { read_listed = read_part }

abbrev serve_parts : Request → Time → Time × Result Response
serve_parts (list_files t dir (pos start) limit) w =
    (w, ok (record { status = 200; content = start ∷ limit ∷ [] }))
serve_parts r w = (w, err not_found)

abbrev net_of_parts : Net Time
net_of_parts = record net { serve = serve_parts }

abbrev session : Session Time
session = record { token = token; world = 0 }

serves : Serves env_of_parts net_of_parts (λ s. s ≡ session) (codes "2024") items
unfolding access_token json_request ◌>>=◌
serves = record {
  gives_token = λ s p. (session, codes "t", refl, rw p refl);
  lists = λ s p t start. (session, refl, rw p refl);
}

stat_finds_example :
    (t : Session Time) × (t ≡ session)
    × (stat env_of_parts net_of_parts 1 (codes "2024/a.jpg") session
        ≡ (t, answer (find (is_at (codes "2024/a.jpg")) (map (object_of env_of_parts) items))))
unfolding normalize_relative ialbum.Text.contains ialbum.Text.replace_all ialbum.Text.trim_space
    ialbum.Text.text_eq ialbum.Text.has_prefix ialbum.Storage.Path.accept_cleaned
    ialbum.Storage.Path.clean ialbum.Text.join ialbum.Text.split dir_of ialbum.Text.trim_prefix
stat_finds_example =
    stat_finds env_of_parts net_of_parts (λ s. s ≡ session) (codes "2024/a.jpg")
      (codes "2024/a.jpg") (codes "2024") items serves refl refl (omega arith) 1 (omega arith)
      session refl

-- What is found is the second file.
finds_second :
    answer (find (is_at (codes "2024/a.jpg")) (map (object_of env_of_parts) items))
    ≡ ok (some (object_of env_of_parts (item 8 (codes "a.jpg"))))
unfolding find object_of ialbum.Text.text_eq ialbum.Text.itoa remote_path ialbum.Text.trim
    ialbum.Text.trim_prefix ialbum.Text.has_prefix ialbum.Storage.Path.clean ialbum.Text.join
    ialbum.Text.split normalize_relative ialbum.Text.contains ialbum.Text.replace_all
    ialbum.Text.trim_space
finds_second = refl
