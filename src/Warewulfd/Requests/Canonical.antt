-- ===== src/Warewulfd/Requests/Canonical.antt =====
-- What holds of every request that `parseRequest` accepts.
use warewulf.Common.{
  ℕ, ◌≡◌, ◌≢◌, refl, sym, ◌∙◌, subst, true, false, List, [], ◌∷◌, Option, none, some, ◌==◌, ==_iff,
  if◌then◌else◌, arith, inl, inr, ◌⊎◌, Bool-cases,
}
use warewulf.Common.Text.{Text, codes, text_eq, text_eq_iff, split}
use warewulf.Common.Results.{ok}
use warewulf.Warewulfd.Requests.{
  Request, ParsedRequest, first_value, requested_stage, known_stage, path_efifile, path_hwaddr,
  find_hwaddr, is_supported, value_or_empty, parse_known, parse_remote, parse_parts, parse_request,
}
use warewulf.Warewulfd.Requests.Values.{
  IsHwaddr, path_hwaddr-IsHwaddr, find_hwaddr-IsHwaddr, IsKnown, known_stage-IsKnown,
}

-- What the server relies on in a request that is accepted.
pub record IsParsed (req : Request) (r : ParsedRequest) : Type 0 where
  pub known : IsKnown r.stage
  pub some_stage : r.stage ≢ []
  pub some_hwaddr : r.hwaddr ≢ []
  pub canonical : IsHwaddr r.hwaddr
  pub remote : req.remote ≡ some (r.ipaddr, r.remoteport)
  pub some_ipaddr : r.ipaddr ≢ []
  pub some_port : r.remoteport ≢ 0
  pub supported : (r.compress ≡ []) ⊎ (r.compress ≡ codes "gz")

text_eq-nil : (s : Text) → text_eq s [] ≡ false → s ≢ []
text_eq-nil s h e = absurd (ground (arith, h, (text_eq_iff s []).1 e))

is_supported-cases : (s : Text) → is_supported s ≡ true → (s ≡ []) ⊎ (s ≡ codes "gz")
unfolding is_supported
is_supported-cases s h = ground (arith, h, text_eq_iff s [], text_eq_iff s (codes "gz"))

module _ (arp_find : Text → Text) (req : Request) where
  parse_known-IsParsed :
      (stage : Text) (parts : List Text) (ip : Text) (port : ℕ) (r : ParsedRequest)
      → IsKnown stage
      → stage ≢ []
      → req.remote ≡ some (ip, port)
      → ip ≢ []
      → port ≢ 0
      → parse_known arp_find req stage parts ip port ≡ ok r
      → IsParsed req r
  unfolding parse_known
  parse_known-IsParsed stage parts ip port r known some_stage remote some_ip some_port h =
      elim (Bool-cases (text_eq hwaddr [])) [
        | inl e ↦ absurd (ground (arith, e, h))
        | inr e ↦ elim (Bool-cases (is_supported compress)) [
          | inr f ↦ absurd (ground (arith, e, f, h))
          | inl f ↦
              let step : parse_known arp_find req stage parts ip port ≡ ok built =
                rw (parse_known, e, f) refl in
              let same : built ≡ r = cc (sym step ∙ h) in
              subst (IsParsed req) same (record {
                known = known;
                some_stage = some_stage;
                some_hwaddr = text_eq-nil hwaddr e;
                canonical =
                    find_hwaddr-IsHwaddr arp_find req ip (path_hwaddr stage parts)
                      (path_hwaddr-IsHwaddr stage parts);
                remote = remote;
                some_ipaddr = some_ip;
                some_port = some_port;
                supported = is_supported-cases compress f;
              })
        ]
      ]
    where
      hwaddr : Text
      hwaddr = find_hwaddr arp_find req ip (path_hwaddr stage parts)

      compress : Text
      compress = value_or_empty (first_value req (codes "compress"))

      built : ParsedRequest
      built = record {
        hwaddr = hwaddr;
        ipaddr = ip;
        remoteport = port;
        assetkey = value_or_empty (first_value req (codes "assetkey"));
        uuid = value_or_empty (first_value req (codes "uuid"));
        stage = stage;
        efifile =
            if text_eq (path_efifile stage parts) []
            then value_or_empty (first_value req (codes "file"))
            else path_efifile stage parts;
        compress = compress;
      }

  parse_remote-IsParsed :
      (stage : Text) (parts : List Text) (o : Option (Text × ℕ)) (r : ParsedRequest)
      → IsKnown stage
      → stage ≢ []
      → req.remote ≡ o
      → parse_remote arp_find req stage parts o ≡ ok r
      → IsParsed req r
  unfolding parse_remote
  parse_remote-IsParsed stage parts none r known some_stage remote h = absurd (ground (arith, h))
  parse_remote-IsParsed stage parts (some (ip, port)) r known some_stage remote h =
      elim (Bool-cases (text_eq ip [])) [
        | inl e ↦ absurd (ground (arith, e, h))
        | inr e ↦ elim (Bool-cases (port == 0)) [
          | inl f ↦ absurd (ground (arith, e, f, h))
          | inr f ↦
              let step : parse_remote arp_find req stage parts (some (ip, port))
                  ≡ parse_known arp_find req stage parts ip port =
                rw (parse_remote, e, f) refl in
              parse_known-IsParsed stage parts ip port r known some_stage remote (text_eq-nil ip e)
                (λ z. absurd (ground (arith, f, (==_iff port 0).1 z))) (sym step ∙ h)
        ]
      ]

  parse_parts-IsParsed :
      (parts : List Text) (r : ParsedRequest)
      → parse_parts arp_find req parts ≡ ok r
      → IsParsed req r
  unfolding parse_parts
  parse_parts-IsParsed [] r h = absurd (ground (arith, h))
  parse_parts-IsParsed (p ∷ []) r h = absurd (ground (arith, h))
  parse_parts-IsParsed (p ∷ first ∷ parts) r h = elim (Bool-cases (text_eq stage [])) [
    | inl e ↦ absurd (ground (arith, e, h))
    | inr e ↦
        let step : parse_parts arp_find req (p ∷ first ∷ parts)
            ≡ parse_remote arp_find req stage parts req.remote =
          rw (parse_parts, e) refl in
        parse_remote-IsParsed stage parts req.remote r
          (known_stage-IsKnown (requested_stage req first)) (text_eq-nil stage e) refl
          (sym step ∙ h)
  ]
    where
      stage : Text
      stage = known_stage (requested_stage req first)

  -- A request that `parseRequest` accepts has a stage that is no alias, a hardware address in lower
  -- case with colons, the address and port of its sender, both there, and no compression but gz.
  pub parse_request-IsParsed :
      (r : ParsedRequest) → parse_request arp_find req ≡ ok r → IsParsed req r
  unfolding parse_request
  parse_request-IsParsed r h = parse_parts-IsParsed (split req.path b'/') r h
