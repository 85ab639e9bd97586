-- ===== src/Warewulfd/Api/Authentication.antt =====
-- internal/pkg/warewulfd/api/authentication.go: `AuthMiddleware`. What net.SplitHostPort and
-- `BasicAuth` make of a request is the record `ApiRequest`; net.ParseIP, `Contains` of a
-- net and bcrypt are arguments.
pub mod Guarded
use warewulf.Common.{Bool, true, false, List, [], ◌∷◌, Option, none, some, any, if◌then◌else◌}
use warewulf.Common.Text.{Text}
use warewulf.Common.Maps.{Map, lookup}
use warewulf.Config.Types.{IpNet}
use warewulf.Config.Authentication.{User, authenticate}

pub record ApiRequest : Type 0 where
  pub remote_host : Option Text
  pub basic_auth : Option (Text × Text)

pub data Guard : Type 0 where
  forbidden : Guard
  unauthorized : Guard
  served : Guard

module _ (parse_ip : Text → Option Text) (net_contains : IpNet → Option Text → Bool)
    (compare_hash : Text → Text → Bool) where
  abbrev pub user_answer : Option User → Guard
  user_answer none = unauthorized
  user_answer (some _) = served

  unfoldable pub check_user : Map User → Option (Text × Text) → Guard
  unfolding authenticate
  check_user user_map none = unauthorized
  check_user user_map (some (username, password)) =
      user_answer (authenticate compare_hash user_map username password)

  unfoldable pub check_auth : Option (Map User) → Option (Text × Text) → Guard
  unfolding check_user
  check_auth none credentials = served
  check_auth (some user_map) credentials = check_user user_map credentials

  -- An address that does not parse is answered with an error, and the loop runs all the same, on
  -- the nil address; where it then is forbidden, the error is written twice.
  unfoldable pub check_host :
      Option (Map User) → List IpNet → Option (Text × Text) → Option Text → Guard
  unfolding check_auth
  check_host auth allowed_nets credentials none = forbidden
  check_host auth allowed_nets credentials (some ip_str) =
      if any (λ net. net_contains net (parse_ip ip_str)) allowed_nets
      then check_auth auth credentials
      else forbidden

  unfoldable pub auth_middleware : Option (Map User) → List IpNet → ApiRequest → Guard
  unfolding check_host
  auth_middleware auth allowed_nets req =
      check_host auth allowed_nets req.basic_auth req.remote_host
