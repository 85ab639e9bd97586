-- ===== src/Warewulfd/Examples/Guard.antt =====
-- The theorem on access to the REST interface, with one user and one net of one address.
use warewulf.Common.{◌≡◌, refl, Bool, false, List, [], ◌∷◌, Option, none, some}
use warewulf.Common.Text.{Text, codes, text_eq}
use warewulf.Config.Types.{IpNet}
use warewulf.Config.Authentication.{User, parse_from_raw}
use warewulf.Warewulfd.Api.Authentication.{ApiRequest, served, auth_middleware}
use warewulf.Warewulfd.Api.Authentication.Guarded.{Guarded, auth_middleware_lem}

abbrev any_address : Text → Option Text
any_address s = some s

abbrev one_address_net : IpNet → Option Text → Bool
unfolding text_eq
one_address_net net none = false
one_address_net (address, mask) (some ip) = text_eq address ip

no_address : (net : IpNet) → one_address_net net none ≡ false
unfolding one_address_net
no_address net = refl

abbrev same_text : Text → Text → Bool
unfolding text_eq
same_text hash pass = text_eq hash pass

abbrev users : List User
users = record { name = codes "admin"; password_hash = codes "secret" } ∷ []

abbrev nets : List IpNet
nets = (codes "127.0.0.1", codes "255.255.255.255") ∷ []

abbrev request : ApiRequest
request = record {
  remote_host = some (codes "127.0.0.1");
  basic_auth = some (codes "admin", codes "secret");
}

request_served :
    auth_middleware any_address one_address_net same_text
      (some (parse_from_raw users []).0)
      nets
      request
    ≡ served
unfolding auth_middleware parse_from_raw one_address_net same_text
request_served = refl

auth_middleware_lem_example :
    Guarded any_address one_address_net same_text no_address users nets request (
      auth_middleware any_address one_address_net same_text
        (some (parse_from_raw users []).0)
        nets
        request)
auth_middleware_lem_example =
    auth_middleware_lem any_address one_address_net same_text no_address users nets request
