-- ===== src/Auth/Tests.antt =====
-- Runs on keys, and the theorems at concrete inputs.
use wp_open_omega.Auth.{
  admin, operator, viewer, ApiKey, AuthService, revoked, error, find_by_hash, refusal, count_use,
  validate_api_key, revoke,
}
use wp_open_omega.Auth.Ranges.{
  is_ip_allowed, ip_in_cidr, ip_to_number, parse_int, is_ip_allowed-not_v4,
}
use wp_open_omega.Auth.Usage.{Counted, validate_api_key-Counted}
use wp_open_omega.Auth.Access.{validate_api_key-revoke}
use wp_open_omega.Auth.Guard.{
  Route, Request, Established, can_activate, can_activate-Established, extract_api_key,
}
use wp_open_omega.Common.{
  IsKeyed, String, ◌≡◌, refl, true, false, none, some, [], ◌∷◌, arith, Text, units, split, has_key,
  lookup, insert, erase, trim_start, decimal, digits_prefix,
}

-- The hash of a text, as the test takes it.
abbrev hash : Text → String
hash [] = "empty"
hash (c ∷ s) = "some"

abbrev stored_key : ApiKey
stored_key = record {
  name = "main";
  key_hash = "some";
  key_prefix = "owa_k1_";
  role = operator;
  allowed_ips = some (units "10.0.0.0/8" ∷ []);
  allowed_sessions = none;
  is_active = true;
  expires_at = none;
  last_used_at = some 1000;
  usage_count = 5;
}

abbrev service : AuthService
service = record { rows = ("k1", stored_key) ∷ []; pending_usage = [] }

service-IsKeyed : IsKeyed service.rows
unfolding IsKeyed has_key lookup
service-IsKeyed = (refl, tt)

running : Unit {0}
unfolding validate_api_key find_by_hash refusal count_use is_ip_allowed ip_in_cidr ip_to_number
    parse_int split trim_start decimal digits_prefix lookup insert erase
running = tt

-- A validation within a minute of the last written one is counted in memory.
counted_in_memory :
    (validate_api_key hash 2000
      (units "key")
      (some (units "10.1.2.3"))
      none
      service).1.pending_usage
    ≡ ("k1", 1) ∷ []
unfolding running
counted_in_memory = refl

validate_api_key-Counted_example :
    Counted service
      (validate_api_key hash 2000 (units "key") (some (units "10.1.2.3")) none service).1
      (find_by_hash (hash (units "key")) service.rows)
      (validate_api_key hash 2000 (units "key") (some (units "10.1.2.3")) none service).0
validate_api_key-Counted_example =
    validate_api_key-Counted hash 2000 (units "key") (some (units "10.1.2.3")) none service
      service-IsKeyed

validate_api_key-revoke_example :
    validate_api_key hash 2000 (units "key") (some (units "10.1.2.3")) none (revoke "k1" service).1
    ≡ (error revoked, (revoke "k1" service).1)
unfolding running
validate_api_key-revoke_example =
    validate_api_key-revoke hash 2000 (units "key") (some (units "10.1.2.3")) none "k1" stored_key
      service refl service-IsKeyed

abbrev owner : ApiKey
owner = record {
  name = "owner";
  key_hash = "other";
  key_prefix = "owa_k1_";
  role = admin;
  allowed_ips = none;
  allowed_sessions = none;
  is_active = true;
  expires_at = none;
  last_used_at = none;
  usage_count = 0;
}

-- The client and the range share no bits at all.
is_ip_allowed-not_v4_example : is_ip_allowed (units "2001:db8::1") (units "fd00::/32" ∷ []) ≡ true
unfolding running
is_ip_allowed-not_v4_example =
    is_ip_allowed-not_v4 (units "2001:db8::1") (units "fd00::/32") (units "fd00::") (units "32") []
      [] 32 refl refl refl (omega arith) refl refl

abbrev route : Route
route = record { is_public = false; skip_api_key = false; required_role = some viewer }

abbrev request : Request
request = record {
  x_api_key = none;
  authorization = some (units "Bearer key");
  session_param = none;
  id_param = none;
  connection = record { ip = none; remote_address = some (units "10.1.2.3"); headers = [] };
}

can_activate-Established_example :
    Established hash [] 2000 route request service
      (can_activate hash [] 2000 route request service).0
      (extract_api_key request)
can_activate-Established_example = can_activate-Established hash [] 2000 route request service
