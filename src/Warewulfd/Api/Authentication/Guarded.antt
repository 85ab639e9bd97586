-- ===== src/Warewulfd/Api/Authentication/Guarded.antt =====
-- Who reaches the handlers of the REST interface.
use warewulf.Common.{
  ◌≡◌, refl, sym, ◌∙◌, ap, Bool, true, false, List, [], Option, none, some, any, In, inl, inr,
  arith, In-any, any-In, Bool-cases,
}
use warewulf.Common.Text.{Text}
use warewulf.Common.Maps.{lookup}
use warewulf.Config.Types.{IpNet}
use warewulf.Config.Authentication.{User, authenticate, parse_from_raw, parse_from_raw-lookup}
use warewulf.Warewulfd.Api.Authentication.{
  ApiRequest, Guard, forbidden, unauthorized, served, check_user, check_auth, check_host,
  auth_middleware,
}

module _ (parse_ip : Text → Option Text) (net_contains : IpNet → Option Text → Bool)
    (compare_hash : Text → Text → Bool)
    (no_address : (net : IpNet) → net_contains net none ≡ false) where
  -- The peer has an address in an allowed net.
  abbrev pub IsAllowed : List IpNet → ApiRequest → Type 0
  IsAllowed nets req =
      (host : Text) × (ip : Text) × (net : IpNet) × (req.remote_host ≡ some host)
      × (parse_ip host ≡ some ip)
      × In net nets
      × (net_contains net (some ip) ≡ true)

  -- The request has the name of a user and a password that fits.
  abbrev pub HasPassword : List User → ApiRequest → Type 0
  HasPassword users req =
      (name : Text) × (pass : Text) × (user : User) × (req.basic_auth ≡ some (name, pass))
      × (lookup name (parse_from_raw users []).0 ≡ some user)
      × (compare_hash user.password_hash pass ≡ true)

  abbrev pub IsUser : List User → ApiRequest → Type 0
  IsUser users req =
      (name : Text) × (pass : Text) × (user : User) × (req.basic_auth ≡ some (name, pass))
      × In user users
      × (user.name ≡ name)
      × (compare_hash user.password_hash pass ≡ true)

  abbrev pub Guarded : List User → List IpNet → ApiRequest → Guard → Type 0
  Guarded users nets req served = IsAllowed nets req × IsUser users req
  Guarded users nets req unauthorized = IsAllowed nets req × (HasPassword users req → ⊥)
  Guarded users nets req forbidden = IsAllowed nets req → ⊥

  check_user-Guarded :
      (users : List User) (nets : List IpNet) (req : ApiRequest)
      → IsAllowed nets req
      → (o : Option (Text × Text)) → req.basic_auth ≡ o
      → Guarded users nets req
          (check_user parse_ip net_contains compare_hash (parse_from_raw users []).0 o)
  unfolding check_user authenticate
  check_user-Guarded users nets req allowed none e =
      (allowed, λ (name, pass, user, q, there, fits). absurd (ground (arith, sym e ∙ q)))
  check_user-Guarded users nets req allowed (some (name, pass)) e =
      found (lookup name (parse_from_raw users []).0) refl
    where
      same :
          (name' pass' : Text)
          → req.basic_auth ≡ some (name', pass')
          → ◌≡◌ {A = Text × Text} (name, pass) (name', pass')
      same name' pass' q =
          let both : ◌≡◌ {A = Option (Text × Text)} (some (name, pass)) (some (name', pass')) =
            sym e ∙ q in
          cc

      found :
          (o : Option User)
          → lookup name (parse_from_raw users []).0 ≡ o
          → Guarded users nets req (
              check_user parse_ip net_contains compare_hash
                (parse_from_raw users []).0
                (some (name, pass)))
      found none q =
          rw (check_user, authenticate, q)
            (
              allowed,
              λ (name', pass', user, r, there, fits).
                  let twice : lookup name' (parse_from_raw users []).0 ≡ none =
                    ap (λ z. lookup z.0 (parse_from_raw users []).0) (sym (same name' pass' r))
                    ∙ q in
                  absurd (ground (arith, sym twice ∙ there)),
            )
      found (some user) q = elim (Bool-cases (compare_hash user.password_hash pass)) [
        | inl t ↦
            rw (check_user, authenticate, q, t)
              (
                allowed,
                let (i, named) = parse_from_raw-lookup users name user q in
                    (name, pass, user, e, i, named, t),
              )
        | inr f ↦
            rw (check_user, authenticate, q, f)
              (
                allowed,
                λ (name', pass', user', r, there, fits).
                    let s = same name' pass' r in
                    let users_same : ◌≡◌ {A = Option User} (some user) (some user') =
                      sym q ∙ ap (λ z. lookup z.0 (parse_from_raw users []).0) s ∙ there in
                    let user_same : user ≡ user' = cc in
                    absurd (
                      ground (
                        arith,
                        sym f
                            ∙ ap (λ z. compare_hash z.password_hash pass) user_same
                            ∙ ap (λ z. compare_hash user'.password_hash z.1) s
                            ∙ fits,
                      )),
              )
      ]

  -- A request reaches a handler of the REST interface only if its peer has an address in an allowed
  -- net and it names a user of the file with a password that fits; otherwise it is
  -- forbidden, where the peer has no such address, or else unauthorized, where no such user stands
  -- in the map. A net contains no nil address, and the server checks users.
  pub auth_middleware_lem :
      (users : List User) (nets : List IpNet) (req : ApiRequest)
      → Guarded users nets req (
          auth_middleware parse_ip net_contains compare_hash
            (some (parse_from_raw users []).0)
            nets
            req)
  unfolding auth_middleware check_host check_auth
  auth_middleware_lem users nets req = host req.remote_host refl
    where
      named :
          (ip_str : Text) (net : IpNet) (o : Option Text)
          → req.remote_host ≡ some ip_str
          → parse_ip ip_str ≡ o
          → In net nets
          → net_contains net o ≡ true
          → IsAllowed nets req
      named ip_str net none e q i t = absurd (ground (arith, sym (no_address net) ∙ t))
      named ip_str net (some ip) e q i t = (ip_str, ip, net, e, q, i, t)

      host :
          (o : Option Text)
          → req.remote_host ≡ o
          → Guarded users nets req (
              check_host parse_ip net_contains compare_hash
                (some (parse_from_raw users []).0)
                nets
                req.basic_auth
                o)
      host none e = λ (h, ip, net, q, p, i, t). absurd (ground (arith, sym e ∙ q))
      host (some ip_str) e =
          elim (Bool-cases (any (λ net. net_contains net (parse_ip ip_str)) nets)) [
            | inl t ↦
                let (net, i, c) = any-In (λ net. net_contains net (parse_ip ip_str)) nets t in
                rw (check_host, t)
                  (check_user-Guarded users nets req (named ip_str net (parse_ip ip_str) e refl i c)
                    req.basic_auth refl)
            | inr f ↦
                rw (check_host, f)
                  (λ (h, ip, net, q, p, i, t).
                    let hosts : ◌≡◌ {A = Option Text} (some ip_str) (some h) = sym e ∙ q in
                    let same : ip_str ≡ h = cc in
                    absurd (
                      ground (
                        arith,
                        f,
                        In-any (λ net. net_contains net (parse_ip ip_str)) net nets i
                            (ap (net_contains net) (ap parse_ip same ∙ p) ∙ t),
                      )))
          ]
