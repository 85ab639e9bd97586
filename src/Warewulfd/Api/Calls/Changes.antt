-- ===== src/Warewulfd/Api/Calls/Changes.antt =====
-- What each handler that changes something does: whether it fails, and what it writes otherwise.
use warewulf.Common.{
  ◌≡◌, ◌≢◌, refl, sym, ◌∙◌, ap, Bool, true, ◌&&◌, List, [], ◌∷◌, Option, none, some, In, inl, inr,
  ◌⊎◌, arith, ltb, length, Bool-cases, Option-cases,
}
use warewulf.Common.Text.{Text, codes, text_eq}
use warewulf.Common.Maps.{Map, lookup, insert, lookup-insert_self}
use warewulf.Common.Results.{Result-cases}
use warewulf.Node.Types.{Profile, Node, NodesYaml}
use warewulf.Node.Registry.{del_node, del_profile, get_profile, err_not_found}
use warewulf.Node.Queries.{list_nodes_using_profile, list_profiles_using_profile}
use warewulf.Warewulfd.Api.{
  ErrorCode, not_found, invalid_argument, internal, Response, output, failed, Services, Server,
  has_key, first_missing, unknown_name, opened, saved, quoted,
}
use warewulf.Warewulfd.Api.Nodes.{
  add_checked_node, delete_found_node, overwrite_node_at, update_checked_node, entry_output,
  deleted_node,
}
use warewulf.Warewulfd.Api.Profiles.{
  add_checked_profile, delete_unused_profile, overwrite_profile_at, update_checked_profile,
  deleted_profile, in_use,
}
use warewulf.Warewulfd.Api.Calls.Faithful.{IsFaithful, KeepsEntries}
use warewulf.Warewulfd.Api.Calls.{code_of}
use warewulf.Warewulfd.Api.Calls.Linked.{
  HasProfiles, Linked, insert-Linked_node, insert-Linked_profile, del_node-Linked,
  del_profile-Linked,
}

entry_output-code : {V : Type 0} (o : Option V) → o ≢ none → code_of (entry_output o) ≡ none
entry_output-code none h = absurd (h refl)
entry_output-code (some v) h = refl

inserted : {V : Type 0} (m : Map V) (k : Text) (v : V) → lookup k (insert k v m) ≢ none
inserted m k v e = absurd (ground (arith, sym (lookup-insert_self k v m) ∙ e))

first_missing-none :
    (there : Text → Bool) (names : List Text)
    → first_missing there names ≡ none
    → (q : Text) → In q names
    → there q ≡ true
unfolding first_missing
first_missing-none there [] e q i = absurd i
first_missing-none there (n ∷ names) e q i = elim (Bool-cases (there n)) [
  | inr f ↦ absurd (ground (arith, f, e))
  | inl t ↦ elim i [
    | inl s ↦ ap there (sym s) ∙ t
    | inr j ↦ first_missing-none there names (ground (arith, t, e)) q j
  ]
]

has_key-there : {V : Type 0} (m : Map V) (k : Text) → has_key m k ≡ true → lookup k m ≢ none
unfolding has_key
has_key-there m k t e = ground (arith, t, e)

module _ {File : Type 0} (w : Services File) where
  unknown_name-none :
      (config : NodesYaml) (p : Profile)
      → unknown_name w config p ≡ none
      → HasProfiles config.node_profiles p.profiles
  unfolding unknown_name
  unknown_name-none config p e q i _ =
      elim (Option-cases (first_missing (has_key config.node_profiles) p.profiles)) [
        | inr (n, missing) ↦ absurd (ground (arith, missing, e))
        | inl found ↦
            has_key-there config.node_profiles q
              (first_missing-none (has_key config.node_profiles) p.profiles found q i)
      ]

  module _ (s : Server File) where
    pub record Writes {A : Type 0} (r : Response A × Server File) : Type 0 where
      pub before : NodesYaml
      pub after : NodesYaml
      pub out : NodesYaml → Response A
      pub was_read : w.new s.file ≡ (before, none)
      pub linked : IsFaithful w → Linked before → Linked after
      pub answers :
          KeepsEntries w
          → (yml : NodesYaml) (file : File) → w.persist after s.file ≡ ((yml, file), none)
          → code_of (out yml) ≡ none
      pub result : r ≡ saved w out s (w.persist after s.file)

    abbrev pub Goes : {A : Type 0} → Response A × Server File → Type 0
    Goes r = ((c : ErrorCode) × (m : Text) × (r ≡ (failed c m, s))) ⊎ Writes r

    pub opened-Goes :
        {A : Type 0} (f : NodesYaml → Response A × Server File)
        → ((config : NodesYaml) → w.new s.file ≡ (config, none) → Goes (f config))
        → Goes (opened s f (w.new s.file))
    opened-Goes f h = go (w.new s.file) refl
      where
        go : (p : NodesYaml × Option Text) → w.new s.file ≡ p → Goes (opened s f p)
        go (config, some e) q = inl (internal, e, refl)
        go (config, none) q = h config q

    module _ (config : NodesYaml) (was_read : w.new s.file ≡ (config, none)) where
      pub add_checked_node-Goes :
          (id : Text) (input : Node) (if_none_match : Text)
          → Goes (add_checked_node w id input if_none_match s config)
      unfolding add_checked_node
      add_checked_node-Goes id input if_none_match =
          elim (Bool-cases (text_eq if_none_match (codes "*") && has_key config.nodes id)) [
            | inl t ↦ inl (
              invalid_argument,
              quoted (codes "node") id (codes "already exists"),
              rw (add_checked_node, t) refl,
            )
            | inr f ↦ elim (Option-cases (unknown_name w config input.profile)) [
              | inr (e, u) ↦ inl (invalid_argument, e, rw (add_checked_node, f, u) refl)
              | inl u ↦ inr (record {
                before = config;
                after = record config { nodes = insert id input config.nodes };
                out = λ yml. entry_output (lookup id yml.nodes);
                answers = λ keeps yml file p.
                    entry_output-code _ (keeps.node_kept _ yml s.file file p id (inserted _ id _));
                was_read = was_read;
                linked = λ faithful h.
                    insert-Linked_node id input config h (unknown_name-none config input.profile u);
                result = rw (add_checked_node, f, u) refl;
              })
            ]
          ]

      pub delete_found_node-Goes : (id : Text) → Goes (delete_found_node w id s config)
      unfolding delete_found_node
      delete_found_node-Goes id = elim (Result-cases (del_node id config)) [
        | inr (e, q) ↦ inl (internal, e, rw (delete_found_node, q) refl)
        | inl (after, q) ↦ inr (record {
          before = config;
          after = after;
          out = λ yml. output (deleted_node (lookup id config.nodes));
          answers = λ _ yml file p. refl;
          was_read = was_read;
          linked = λ _. del_node-Linked id config after q;
          result = rw (delete_found_node, q) refl;
        })
      ]

      pub add_checked_profile-Goes :
          (id : Text) (input : Profile) (if_none_match : Text)
          → Goes (add_checked_profile w id input if_none_match s config)
      unfolding add_checked_profile
      add_checked_profile-Goes id input if_none_match =
          elim (Bool-cases (text_eq if_none_match (codes "*") && has_key config.node_profiles id)) [
            | inl t ↦ inl (
              invalid_argument,
              quoted (codes "profile") id (codes "already exists"),
              rw (add_checked_profile, t) refl,
            )
            | inr f ↦ elim (Option-cases (unknown_name w config input)) [
              | inr (e, u) ↦ inl (invalid_argument, e, rw (add_checked_profile, f, u) refl)
              | inl u ↦ inr (record {
                before = config;
                after = record config { node_profiles = insert id input config.node_profiles };
                out = λ yml. entry_output (lookup id yml.node_profiles);
                answers = λ keeps yml file p.
                    entry_output-code _
                      (keeps.profile_kept _ yml s.file file p id (inserted _ id _));
                was_read = was_read;
                linked = λ faithful h.
                    insert-Linked_profile id input config h (unknown_name-none config input u);
                result = rw (add_checked_profile, f, u) refl;
              })
            ]
          ]

      pub delete_unused_profile-Goes : (id : Text) → Goes (delete_unused_profile w id s config)
      unfolding delete_unused_profile
      delete_unused_profile-Goes id =
          elim (Bool-cases (ltb 0 (length (list_nodes_using_profile config id)))) [
            | inl t ↦ inl (invalid_argument, used id, rw (delete_unused_profile, t) refl)
            | inr f ↦ elim (Bool-cases (ltb 0 (length (list_profiles_using_profile config id)))) [
              | inl t ↦ inl (invalid_argument, used id, rw (delete_unused_profile, f, t) refl)
              | inr g ↦ elim (Result-cases (del_profile id config)) [
                | inr (e, q) ↦ inl (internal, e, rw (delete_unused_profile, f, g, q) refl)
                | inl (after, q) ↦ inr (record {
                  before = config;
                  after = after;
                  out = λ yml. output (deleted_profile (lookup id config.node_profiles));
                  answers = λ _ yml file p. refl;
                  was_read = was_read;
                  linked = λ _. del_profile-Linked id config after f g q;
                  result = rw (delete_unused_profile, f, g, q) refl;
                })
              ]
            ]
          ]
        where
          used : Text → Text
          used id =
              in_use id (length (list_nodes_using_profile config id))
                (length (list_profiles_using_profile config id))

      pub update_checked_node-Goes :
          (id : Text) (input : Node) → Goes (update_checked_node w id input s config)
      unfolding update_checked_node overwrite_node_at
      update_checked_node-Goes id input =
          elim (Option-cases (unknown_name w config input.profile)) [
            | inr (e, u) ↦ inl (invalid_argument, e, rw (update_checked_node, u) refl)
            | inl u ↦ elim (Option-cases (lookup id config.nodes)) [
              | inl m ↦ inl (not_found, err_not_found, rw (update_checked_node, u, m) refl)
              | inr (n, there) ↦ elim (Result-cases (w.overwrite_node n input)) [
                | inr (e, q) ↦
                    inl (internal, e, rw (update_checked_node, u, there, overwrite_node_at, q) refl)
                | inl (merged, q) ↦ inr (record {
                  before = config;
                  after = record config { nodes = insert id merged config.nodes };
                  out = λ yml. entry_output (lookup id yml.nodes);
                  answers = λ keeps yml file p.
                      entry_output-code _
                        (keeps.node_kept _ yml s.file file p id (inserted _ id _));
                  was_read = was_read;
                  linked = λ faithful h. insert-Linked_node id merged config h (λ name i r.
                      elim (faithful.node_names n input merged q name i) [
                        | inl j ↦ h.nodes id n there name j r
                        | inr j ↦ unknown_name-none config input.profile u name j r
                      ]);
                  result = rw (update_checked_node, u, there, overwrite_node_at, q) refl;
                })
              ]
            ]
          ]

      pub update_checked_profile-Goes :
          (id : Text) (input : Profile) → Goes (update_checked_profile w id input s config)
      unfolding update_checked_profile overwrite_profile_at get_profile
      update_checked_profile-Goes id input = elim (Option-cases (unknown_name w config input)) [
        | inr (e, u) ↦ inl (invalid_argument, e, rw (update_checked_profile, u) refl)
        | inl u ↦ elim (Option-cases (lookup id config.node_profiles)) [
          | inl m ↦
              inl (not_found, err_not_found, rw (update_checked_profile, u, get_profile, m) refl)
          | inr (p, there) ↦
              elim (Result-cases (w.overwrite_profile (record p { id = id }) input)) [
                | inr (e, q) ↦ inl (
                  internal,
                  e,
                  rw (update_checked_profile, u, get_profile, there, overwrite_profile_at, q) refl,
                )
                | inl (merged, q) ↦ inr (record {
                  before = config;
                  after = record config { node_profiles = insert id merged config.node_profiles };
                  out = λ yml. entry_output (lookup id yml.node_profiles);
                  answers = λ keeps yml file p.
                      entry_output-code _
                        (keeps.profile_kept _ yml s.file file p id (inserted _ id _));
                  was_read = was_read;
                  linked = λ faithful h. insert-Linked_profile id merged config h (λ name i r.
                      elim (faithful.profile_names (record p { id = id }) input merged q name i) [
                        | inl j ↦ h.profiles id p there name j r
                        | inr j ↦ unknown_name-none config input u name j r
                      ]);
                  result =
                      rw (update_checked_profile, u, get_profile, there, overwrite_profile_at, q)
                        refl;
                })
              ]
        ]
      ]
