-- ===== src/Warewulfd/Api/Profiles.antt =====
-- internal/pkg/warewulfd/api/profile.go: the handlers on profiles.
use warewulf.Common.{ℕ, ◌&&◌, ◌||◌, ◌++◌, Option, none, some, if◌then◌else◌, ltb, length}
use warewulf.Common.Text.{Text, codes, text_eq}
use warewulf.Common.Maps.{Map, lookup, insert}
use warewulf.Common.Results.{Result, ok, err}
use warewulf.Hostlist.Numbers.{itoa}
use warewulf.Node.Types.{Profile, NodesYaml}
use warewulf.Node.Queries.{list_nodes_using_profile, list_profiles_using_profile}
use warewulf.Node.Registry.{get_profile, del_profile, no_profile}
use warewulf.Warewulfd.Api.{
  not_found, invalid_argument, internal, Response, output, failed, Services, Server, has_key,
  quoted, unknown_name, opened, saved,
}
use warewulf.Warewulfd.Api.Nodes.{entry_output}

abbrev pub deleted_profile : Option Profile → Profile
deleted_profile (some p) = p
deleted_profile none = no_profile

abbrev pub profile_output : Text → Result Profile → Response Profile
profile_output id (ok p) = output p
profile_output id (err e) =
    failed not_found (codes "profile not found: " ++ id ++ codes " (" ++ e ++ codes ")")

abbrev pub in_use : Text → ℕ → ℕ → Text
unfolding itoa
in_use id nodes_count profiles_count =
    quoted (codes "profile") id (codes "is in use by ")
    ++ itoa nodes_count
    ++ codes " nodes and "
    ++ itoa profiles_count
    ++ codes " profiles"

module _ {File : Type 0} (w : Services File) where
  -- `getProfiles`
  unfoldable pub get_profiles_handler : Server File → Response (Map Profile) × Server File
  get_profiles_handler s = opened s (λ config. (output config.node_profiles, s)) (w.new s.file)

  -- `getProfileByID`
  unfoldable pub get_profile_handler : Text → Server File → Response Profile × Server File
  unfolding get_profile
  get_profile_handler id s =
      opened s (λ config. (profile_output id (get_profile id config), s)) (w.new s.file)

  unfoldable pub add_checked_profile :
      Text → Profile → Text → Server File → NodesYaml → Response Profile × Server File
  unfolding text_eq has_key unknown_name insert lookup saved
  add_checked_profile id input if_none_match s config =
      if text_eq if_none_match (codes "*") && has_key config.node_profiles id
      then (failed invalid_argument (quoted (codes "profile") id (codes "already exists")), s)
      else elim (unknown_name w config input) [
        | some e ↦ (failed invalid_argument e, s)
        | none ↦
            saved w (λ yml. entry_output (lookup id yml.node_profiles)) s
              (w.persist (record config { node_profiles = insert id input config.node_profiles })
                s.file)
      ]

  -- `addProfile`
  unfoldable pub add_profile_handler :
      Text → Profile → Text → Server File → Response Profile × Server File
  unfolding add_checked_profile
  add_profile_handler id input if_none_match s =
      opened s (add_checked_profile id input if_none_match s) (w.new s.file)

  -- The profile in the registry is overwritten, where mergo does not fail.
  unfoldable pub overwrite_profile_at :
      Text → Server File → NodesYaml → Result Profile → Response Profile × Server File
  unfolding insert lookup saved
  overwrite_profile_at id s config (err e) = (failed internal e, s)
  overwrite_profile_at id s config (ok p) =
      saved w (λ yml. entry_output (lookup id yml.node_profiles)) s
        (w.persist (record config { node_profiles = insert id p config.node_profiles }) s.file)

  unfoldable pub update_checked_profile :
      Text → Profile → Server File → NodesYaml → Response Profile × Server File
  unfolding unknown_name get_profile overwrite_profile_at
  update_checked_profile id input s config = elim (unknown_name w config input) [
    | some e ↦ (failed invalid_argument e, s)
    | none ↦ elim (get_profile id config) [
      | err e ↦ (failed not_found e, s)
      | ok p ↦ overwrite_profile_at id s config (w.overwrite_profile p input)
    ]
  ]

  -- `updateProfile`
  unfoldable pub update_profile_handler :
      Text → Profile → Server File → Response Profile × Server File
  unfolding update_checked_profile
  update_profile_handler id input s = opened s (update_checked_profile id input s) (w.new s.file)

  unfoldable pub delete_unused_profile :
      Text → Server File → NodesYaml → Response Profile × Server File
  unfolding list_nodes_using_profile list_profiles_using_profile itoa lookup del_profile saved
  delete_unused_profile id s config =
      let nodes_count = length (list_nodes_using_profile config id) in
      let profiles_count = length (list_profiles_using_profile config id) in
      if ltb 0 nodes_count || ltb 0 profiles_count
      then (failed invalid_argument (in_use id nodes_count profiles_count), s)
      else elim (del_profile id config) [
        | err e ↦ (failed internal e, s)
        | ok after ↦
            saved w (λ yml. output (deleted_profile (lookup id config.node_profiles))) s
              (w.persist after s.file)
      ]

  -- `deleteProfile`
  unfoldable pub delete_profile_handler : Text → Server File → Response Profile × Server File
  unfolding delete_unused_profile
  delete_profile_handler id s = opened s (delete_unused_profile id s) (w.new s.file)
