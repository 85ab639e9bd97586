-- ===== src/Warewulfd/Requests/Values.antt =====
-- The stage and the hardware address that `parseRequest` finds.
use warewulf.Common.{
  ℕ, ◌≡◌, refl, false, List, [], ◌∷◌, Option, none, some, if◌then◌else◌, arith, inl, inr,
  Bool-cases,
}
use warewulf.Common.Text.{Text, codes, text_eq, to_lower, lower_byte}
use warewulf.Warewulfd.Requests.{
  Request, colon_byte, parse_hwaddr, first_value, known_stage, path_hwaddr, find_hwaddr,
}

hwaddr_byte_idem :
    (c : ℕ) → lower_byte (colon_byte (lower_byte (colon_byte c))) ≡ lower_byte (colon_byte c)
unfolding lower_byte
hwaddr_byte_idem c = ground arith

parse_hwaddr_idem : (s : Text) → parse_hwaddr (parse_hwaddr s) ≡ parse_hwaddr s
unfolding parse_hwaddr to_lower
parse_hwaddr_idem [] = refl
parse_hwaddr_idem (c ∷ s) = ground (arith, hwaddr_byte_idem c, parse_hwaddr_idem s)

-- A hardware address as `parseHwaddr` writes it.
abbrev pub IsHwaddr : Text → Type 0
IsHwaddr s = parse_hwaddr s ≡ s

pub path_hwaddr-IsHwaddr : (stage : Text) (parts : List Text) → IsHwaddr (path_hwaddr stage parts)
unfolding path_hwaddr
path_hwaddr-IsHwaddr stage [] = unfold parse_hwaddr to_lower in refl
path_hwaddr-IsHwaddr stage (p ∷ parts) = elim (Bool-cases (text_eq stage (codes "efiboot"))) [
  | inl e ↦ rw e (unfold parse_hwaddr to_lower in refl)
  | inr e ↦ rw e (parse_hwaddr_idem p)
]

pub find_hwaddr-IsHwaddr :
    (arp_find : Text → Text) (req : Request) (ip from_path : Text)
    → IsHwaddr from_path
    → IsHwaddr (find_hwaddr arp_find req ip from_path)
unfolding find_hwaddr
find_hwaddr-IsHwaddr arp_find req ip from_path h =
    pick (if text_eq from_path [] then from_wwid (first_value req (codes "wwid")) else from_path)
      (elim (Bool-cases (text_eq from_path [])) [
        | inl e ↦ rw e (wwid-IsHwaddr (first_value req (codes "wwid")))
        | inr e ↦ rw e h
      ])
  where
    from_wwid : Option Text → Text
    from_wwid o = elim o [ none ↦ [] | some v ↦ parse_hwaddr v ]

    wwid-IsHwaddr : (o : Option Text) → IsHwaddr (from_wwid o)
    wwid-IsHwaddr none = unfold parse_hwaddr to_lower in refl
    wwid-IsHwaddr (some v) = parse_hwaddr_idem v

    pick :
        (s : Text) → IsHwaddr s → IsHwaddr (if text_eq s [] then parse_hwaddr (arp_find ip) else s)
    pick s i = elim (Bool-cases (text_eq s [])) [
      | inl e ↦ rw e (parse_hwaddr_idem (arp_find ip))
      | inr e ↦ rw e i
    ]

-- A stage that is no alias of another one.
abbrev pub IsKnown : Text → Type 0
IsKnown stage =
    (text_eq stage (codes "provision") ≡ false)
    × (text_eq stage (codes "container") ≡ false)
    × (text_eq stage (codes "overlay-system") ≡ false)
    × (text_eq stage (codes "overlay-runtime") ≡ false)

pub known_stage-IsKnown : (stage : Text) → IsKnown (known_stage stage)
unfolding known_stage text_eq
known_stage-IsKnown stage = elim (Bool-cases (text_eq stage (codes "provision"))) [
  | inl e ↦ rw e (refl, refl, refl, refl)
  | inr p ↦ elim (Bool-cases (text_eq stage (codes "container"))) [
    | inl e ↦ rw (p, e) (refl, refl, refl, refl)
    | inr c ↦ elim (Bool-cases (text_eq stage (codes "overlay-system"))) [
      | inl e ↦ rw (p, c, e) (refl, refl, refl, refl)
      | inr s ↦ elim (Bool-cases (text_eq stage (codes "overlay-runtime"))) [
        | inl e ↦ rw (p, c, s, e) (refl, refl, refl, refl)
        | inr r ↦ rw (p, c, s, r) (p, c, s, r)
      ]
    ]
  ]
]
