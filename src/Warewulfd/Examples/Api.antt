-- ===== src/Warewulfd/Examples/Api.antt =====
-- The theorems on calls of the REST interface, where the file is the registry itself.
use warewulf.Common.{
  ◌≡◌, ◌≢◌, ◌∙◌, refl, sym, ap, subst, true, List, [], ◌∷◌, Option, none, some, All, In, inr, ◌⊎◌,
}
use warewulf.Common.Text.{codes}
use warewulf.Common.Maps.{lookup}
use warewulf.Common.Results.{Result, ok}
use warewulf.Node.Types.{Profile, NodesYaml}
use warewulf.Node.Registry.{no_node, no_profile}
use warewulf.Warewulfd.Api.{ErrorCode, invalid_argument, internal, Services, Server}
use warewulf.Warewulfd.Api.Calls.{
  Call, put_node, patch_node, put_profile, delete_profile, run_call, run_calls,
}
use warewulf.Warewulfd.Api.Calls.Linked.{Linked}
use warewulf.Warewulfd.Api.Calls.Faithful.{IsFaithful, KeepsEntries}
use warewulf.Warewulfd.Api.Calls.Kept.{FileLinked, run_calls-FileLinked, run_call-reloads}

abbrev plain : Services NodesYaml
plain = record {
  new = λ file. (file, none);
  persist = λ config file. ((config, config), none);
  valid_source = λ _. true;
  overlay_found = λ _. true;
  overwrite_node = λ old input. ok input;
  overwrite_profile = λ old input. ok input;
  merge_profile = λ a b. ok b;
  merge_own = λ a b. ok b;
}

faithful : IsFaithful plain
faithful = record {
  node_names =
      λ old input merged e q i. inr (subst (λ z. In q z.profile.profiles) (sym (ok_eq e)) i);
  profile_names = λ old input merged e q i. inr (subst (λ z. In q z.profiles) (sym (ok_eq e)) i);
  nodes_read = λ config config' read file file' e r id n h.
      (n, ap (λ z. lookup id z.nodes) (same config config' read file file' e r) ∙ h, λ q i. i);
  profiles_read = λ config config' read file file' e r id p h. (
    p,
    ap (λ z. lookup id z.node_profiles) (same config config' read file file' e r) ∙ h,
    λ q i. i,
  );
  profile_read = λ config config' read file file' e r id h.
      subst (λ z. lookup id z.node_profiles ≢ none) (same config config' read file file' e r) h;
}
  where
    ok_eq : {A : Type 0} {a b : A} → ◌≡◌ {A = Result A} (ok a) (ok b) → a ≡ b
    ok_eq e = cc

    same :
        (config config' read file file' : NodesYaml)
        → plain.persist config file ≡ ((config', file'), none)
        → plain.new file' ≡ (read, none)
        → config ≡ read
    same config config' read file file' e r = ap (λ z. z.0.1) e ∙ ap (λ z. z.0) r

keeps : KeepsEntries plain
keeps = record {
  node_kept = λ config config' file file' e id h.
      subst (λ z. lookup id z.nodes ≢ none) (ap (λ z. z.0.0) e) h;
  profile_kept = λ config config' file file' e id h.
      subst (λ z. lookup id z.node_profiles ≢ none) (ap (λ z. z.0.0) e) h;
}

abbrev empty_registry : NodesYaml
empty_registry = record { node_profiles = []; nodes = [] }

abbrev start : Server NodesYaml
start = record {
  file = empty_registry;
  db = record { node_info = []; yml = empty_registry };
  status = [];
}

abbrev named : Profile
named = record no_profile { profiles = codes "p" ∷ [] }

abbrev calls : List Call
calls =
    put_profile (codes "p") no_profile (codes "*")
    ∷ put_node (codes "n") (record no_node { profile = named }) []
    ∷ delete_profile (codes "p")
    ∷ patch_node (codes "n") (record no_node { profile = named })
    ∷ put_node (codes "m") (record no_node { profile = record named { profiles = codes "q" ∷ [] } })
        []
    ∷ []

answered :
    (run_calls plain calls start).0
    ≡ none ∷ none ∷ some invalid_argument ∷ none ∷ some invalid_argument ∷ []
unfolding run_calls
answered = refl

no_errors : All (λ code. code ≢ some internal) (run_calls plain calls start).0
no_errors =
    subst (All (λ code. code ≢ some internal)) (sym answered)
      (λ e. cc, (λ e. cc, (λ e. cc, (λ e. cc, (λ e. cc, tt)))))

start-FileLinked : FileLinked plain start
unfolding lookup
start-FileLinked config e =
    subst Linked (ap (λ z. z.0) e)
      (record { nodes = λ id n h. absurd cc; profiles = λ id p h. absurd cc })

run_calls-FileLinked_example : FileLinked plain (run_calls plain calls start).1
run_calls-FileLinked_example =
    run_calls-FileLinked plain faithful calls start no_errors start-FileLinked

abbrev once : Option ErrorCode × Server NodesYaml
unfolding run_call
once = run_call plain (put_profile (codes "p") no_profile (codes "*")) start

run_call-reloads_example :
    ((once.0 ≢ none) × (once.1 ≡ start))
    ⊎ (((once.0 ≡ some internal) × (once.1.db ≡ start.db) × (once.1.status ≡ start.status))
        ⊎ ((once.0 ≡ none) × (once.1.db.yml ≡ (plain.new once.1.file).0)))
unfolding run_call
run_call-reloads_example =
    run_call-reloads plain keeps (put_profile (codes "p") no_profile (codes "*")) start once.1
      once.0 refl
