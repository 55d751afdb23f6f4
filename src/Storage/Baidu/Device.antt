-- ===== src/Storage/Baidu/Device.antt =====
-- internal/storage/baidu/baidu.go: the authorization of a device, up to its requests.
use ialbum.Base.{ℕ, ◌+◌, ◌*◌, not, ◌||◌, List, [], ◌++◌, none, some, ltb, if◌then◌else◌, take}
use ialbum.Text.{codes, is_empty, itoa}
use ialbum.Time.{Time, second}
use ialbum.Storage.{Result, ok, err, ◌>>=◌, other}
use ialbum.Manager.{Token}
use ialbum.Manager.Flows.{Answer, Authorization}
use ialbum.Storage.Baidu.{TokenResponse, Response, mebibyte, is_success}

abbrev with_interval : Authorization → Authorization
with_interval a = record a { interval = if ltb a.interval 3 then 5 else a.interval }

-- StartDeviceAuthorization
unfoldable pub start_device_authorization :
    (List ℕ → Result Authorization) → Result Response → Result Authorization
start_device_authorization read answer = answer >>= λ r. read (take mebibyte r.content) >>= λ a.
    if not (is_success r.status) || is_empty a.device_code
    then err (other (codes "baidu device authorization failed: HTTP " ++ itoa r.status))
    else ok (with_interval a)

abbrev no_token : Token
no_token = record { access_token = []; refresh_token = []; expires_at = 0 }

unfoldable pub polled : Time → TokenResponse → Answer
polled now t =
    if not (is_empty t.error)
    then record { token = no_token; state = t.error; error = some (other t.error_description) }
    else if is_empty t.access_token
    then record {
      token = no_token;
      state = codes "invalid_response";
      error = some (other (codes "baidu token response has no access token"));
    }
    else record {
      token = record {
        access_token = t.access_token;
        refresh_token = t.refresh_token;
        expires_at = now + t.expires_in * second;
      };
      state = [];
      error = none;
    }

-- PollDeviceAuthorization
unfoldable pub poll_device_authorization :
    Time → (List ℕ → Result TokenResponse) → Result Response → Answer
unfolding polled
poll_device_authorization now read answer = elim (answer >>= λ r. read (take mebibyte r.content)) [
  | err e ↦ record { token = no_token; state = []; error = some e }
  | ok t ↦ polled now t
]
