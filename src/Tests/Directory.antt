-- ===== src/Tests/Directory.antt =====
-- The theorems on users, API keys and the audit log, at concrete stores.
use cloudpam.Base.{
  ◌≡◌, ◌≤◌, ◌↔◌, refl, true, false, [], ◌∷◌, some, none, List, String, length, take,
}
use cloudpam.Base.Dict.{find, set}
use cloudpam.Auth.Identity.{ApiKey, key_is_valid}
use cloudpam.Auth.RoleStore.{User}
use cloudpam.Auth.Users as Users
use cloudpam.Auth.Users.Steps as Steps
use cloudpam.Auth.Users.Steps.{get_by_username_iff, Named}
use cloudpam.Auth.Keys.{KeyStore, new_key_store, create, revoke, get_by_prefix, get_by_id}
use cloudpam.Auth.Keys.Index as Index
use cloudpam.Auth.Keys.Index.{get_by_prefix_iff, HasPrefix}
use cloudpam.Auth.Keys.Revoked as Revoked
use cloudpam.Auth.Keys.Revoked.{key_is_valid-revoke}
use cloudpam.Audit.{
  AuditEvent, ListOptions, list_events, filtered, limit_of, get_by_resource, events_of,
}
use cloudpam.Audit.History.{Call, run, history, run-list_events}

abbrev reader : ApiKey
reader = record {
  id = "k1";
  prefix = "cpam_1";
  name = "reader";
  hash = [];
  salt = [];
  scopes = "pools:read" ∷ [];
  owner_id = some "u1";
  created_at = 1;
  expires_at = none;
  last_used_at = none;
  revoked = false;
}

abbrev one_key : KeyStore
one_key = (create (some reader) new_key_store).1

get_by_prefix_iff_example :
    (get_by_prefix "cpam_1" one_key ≡ some reader) ↔ HasPrefix "cpam_1" one_key reader
unfolding find
get_by_prefix_iff_example =
    get_by_prefix_iff one_key "cpam_1" reader
      (Index.then_step new_key_store one_key Index.start (Index.creates reader refl))

abbrev revoked_reader : ApiKey
revoked_reader = record reader { revoked = true }

found_revoked : get_by_id "k1" (revoke "k1" one_key).1 ≡ some revoked_reader
unfolding create revoke find set
found_revoked = refl

key_is_valid-revoke_example : key_is_valid 7 revoked_reader ≡ false
key_is_valid-revoke_example =
    key_is_valid-revoke "k1" one_key (revoke "k1" one_key).1 revoked_reader 7 Revoked.now
      found_revoked

abbrev login : AuditEvent String
login = record {
  id = "";
  timestamp = 0;
  actor = "alice";
  actor_type = "user";
  action = "login";
  resource_type = "session";
  resource_id = "s1";
  resource_name = "";
  changes = none;
  request_id = "";
  ip_address = "";
  status_code = 200;
}

abbrev two_logins : List (Call String)
two_logins =
    record { fresh = "b"; now = 2; event = some login }
    ∷ record { fresh = "a"; now = 1; event = some login }
    ∷ []

abbrev all_events : ListOptions
all_events = record {
  limit = 0;
  offset = 0;
  actor = "";
  action = "";
  resource_type = "";
  resource_id = "";
  since = none;
  until = none;
}

run-list_events_example :
    (list_events all_events (run 1 two_logins) ≡ (
      take 50 (filtered all_events (take 1 (history two_logins))),
      length (filtered all_events (take 1 (history two_logins))),
    ))
    × (get_by_resource "session" "s1" (run 1 two_logins)
        ≡ events_of "session" "s1" (take 1 (history two_logins)))
    × (1 ≤ limit_of 0)
    × (limit_of 0 ≤ 1000)
run-list_events_example = run-list_events 1 two_logins all_events "session" "s1"

abbrev alice : User
alice = record {
  id = "u1";
  username = "alice";
  email = "";
  display_name = "";
  role = "viewer";
  password_hash = [];
  is_active = true;
  created_at = 1;
  updated_at = 1;
  last_login_at = none;
  failed_login_attempts = 0;
  last_failed_login_at = none;
  locked_at = none;
  lockout_until = none;
  auth_provider = "local";
  oidc_subject = "";
  oidc_issuer = "";
}

abbrev one_user : Users.UserStore
one_user = (Users.create (some alice) Users.new_user_store).1

get_by_username_iff_example :
    (Users.get_by_username "alice" one_user ≡ some alice) ↔ Named "alice" one_user alice
get_by_username_iff_example =
    get_by_username_iff one_user "alice"
      (Steps.then_step Users.new_user_store one_user Steps.start (Steps.creates (some alice))) refl
      alice
