-- ===== src/Storage/Webdav/Tests.antt =====
-- A server that notes the requests, and a name that leads out of the root.
use ialbum.Base.{true, false, List, [], ◌∷◌, some, none, ◌≡◌, refl, All}
use ialbum.Text.{Text, codes}
use ialbum.Storage.{Result, ok}
use ialbum.Storage.Local.{Source}
use ialbum.Storage.Webdav.{Env, Request, Response, DavProp, object_url}
use ialbum.Storage.Webdav.Below.{StaysBelow, Call, put_call, delete_call, move_call, run, run_keeps}

abbrev env : Env
env = record {
  base = codes "dav" ∷ codes "photos" ∷ [];
  base_path = codes "/dav/photos/";
  path_unescape = λ t. some t;
  parse_time = λ t. 0;
}

abbrev prop : DavProp
prop = record {
  content_length = 3;
  modified = [];
  etag = codes "\"e\"";
  content_type = codes "image/jpeg";
  collection = false;
}

abbrev response : Response
response = record {
  status = 201;
  multistatus = ok (record { href = codes "/dav/photos/a.jpg"; props = prop ∷ [] } ∷ []);
  content = [];
}

abbrev serve : Request → List Request → List Request × Result Response
serve r log = (r ∷ log, ok response)

abbrev source : Source
source = record { open_error = none; reads = (1 ∷ 2 ∷ []) ∷ []; read_error = none }

abbrev calls : List Call
calls =
    put_call (codes "2024/a.jpg") source false
    ∷ move_call (codes "a.jpg") (codes "../b.jpg") true
    ∷ delete_call (codes "../secret")
    ∷ []

-- A name that is refused stands for the root.
refused_name : object_url env (codes "../secret") ≡ codes "dav" ∷ codes "photos" ∷ []
unfolding object_url ialbum.Storage.Path.normalize_relative ialbum.Text.contains
    ialbum.Text.replace_all ialbum.Text.trim_space ialbum.Text.text_eq ialbum.Text.has_prefix
    ialbum.Storage.Path.accept_cleaned ialbum.Storage.Path.clean ialbum.Text.join ialbum.Text.split
refused_name = refl

run_keeps_example : All (StaysBelow env.base) (run env serve calls [])
run_keeps_example = run_keeps env serve (All (StaysBelow env.base)) (λ r w b h. (b, h)) calls [] tt
