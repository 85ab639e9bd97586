-- ===== src/Warewulfd/Api/Calls/Kept.antt =====
-- What a call leaves behind, and which profiles are named after a row of calls.
use warewulf.Common.{
  ◌≡◌, ◌≢◌, refl, sym, ◌∙◌, ap, subst, List, [], ◌∷◌, Option, none, some, All, inl, inr, ◌⊎◌, arith,
}
use warewulf.Common.Text.{Text}
use warewulf.Node.Types.{Node, NodesYaml}
use warewulf.Node.Groups.{find_all_nodes}
use warewulf.Warewulfd.NodeDb.{NodeDb, load_node_db, set_node_info}
use warewulf.Warewulfd.Api.{
  ErrorCode, internal, Response, failed, Services, Server, saved, reload_server,
}
use warewulf.Warewulfd.Api.Nodes.{
  add_checked_node, delete_found_node, update_checked_node, add_node_handler, update_node_handler,
  delete_node_handler,
}
use warewulf.Warewulfd.Api.Profiles.{
  add_checked_profile, delete_unused_profile, update_checked_profile, add_profile_handler,
  update_profile_handler, delete_profile_handler,
}
use warewulf.Warewulfd.Api.Calls.{
  Call, put_node, patch_node, delete_node, put_profile, patch_profile, delete_profile, code_of,
  coded, run_call, run_calls,
}
use warewulf.Warewulfd.Api.Calls.Linked.{Linked}
use warewulf.Warewulfd.Api.Calls.Faithful.{IsFaithful, KeepsEntries}
use warewulf.Warewulfd.Api.Calls.Changes.{
  Goes, opened-Goes, add_checked_node-Goes, delete_found_node-Goes, update_checked_node-Goes,
  add_checked_profile-Goes, delete_unused_profile-Goes, update_checked_profile-Goes,
}

module _ {File : Type 0} (w : Services File) where
  -- The registry that `node.New` reads, if it can, names just profiles that exist.
  abbrev pub FileLinked : Server File → Type 0
  FileLinked s = (config : NodesYaml) → w.new s.file ≡ (config, none) → Linked config

  -- A registry is written, and the server loads it.
  pub record Persisted (s s' : Server File) : Type 0 where
    pub before : NodesYaml
    pub after : NodesYaml
    pub in_memory : NodesYaml
    pub file : File
    pub was_read : w.new s.file ≡ (before, none)
    pub linked : IsFaithful w → Linked before → Linked after
    pub written : w.persist after s.file ≡ ((in_memory, file), none)
    pub moved : s' ≡ reload_server w (record s { file = file })

  -- The call fails and nothing changes, or `Persist` fails and the file may change, or the registry
  -- is written, and the call answers without an error where `Persist` keeps its entries.
  abbrev pub Outcome : Server File → Option ErrorCode × Server File → Type 0
  Outcome s (code, s') =
      ((code ≢ none) × (s' ≡ s))
      ⊎ (((code ≡ some internal) × (s'.db ≡ s.db) × (s'.status ≡ s.status))
          ⊎ ((KeepsEntries w → code ≡ none) × Persisted s s'))

  Goes-Outcome :
      {A : Type 0} (s : Server File) (r : Response A × Server File)
      → Goes w s r
      → Outcome s (coded r)
  unfolding saved
  Goes-Outcome s r (inl (c, m, e)) =
      inl (λ q. absurd (ground (arith, sym (ap (λ z. code_of z.0) e) ∙ q)), ap (λ z. z.1) e)
  Goes-Outcome s r (inr change) = go (w.persist change.after s.file) refl
    where
      go :
          (p : (NodesYaml × File) × Option Text)
          → w.persist change.after s.file ≡ p
          → Outcome s (coded r)
      go ((yml, file), some e) q =
          let gone : r ≡ (failed internal e, record s { file = file }) =
            change.result ∙ rw q refl in
          inr (inl (ap (λ z. code_of z.0) gone, ap (λ z. z.1.db) gone, ap (λ z. z.1.status) gone))
      go ((yml, file), none) q =
          let gone : r ≡ (change.out yml, reload_server w (record s { file = file })) =
            change.result ∙ rw q refl in
          inr (
            inr (
              λ keeps. ap (λ z. code_of z.0) gone ∙ change.answers keeps yml file q,
              record {
                before = change.before;
                after = change.after;
                in_memory = yml;
                file = file;
                was_read = change.was_read;
                linked = change.linked;
                written = q;
                moved = ap (λ z. z.1) gone;
              },
            ))

  run_call-Outcome : (c : Call) (s : Server File) → Outcome s (run_call w c s)
  unfolding run_call add_node_handler update_node_handler delete_node_handler add_profile_handler
      update_profile_handler delete_profile_handler
  run_call-Outcome (put_node id n if_none_match) s = Goes-Outcome s _ (
      opened-Goes w s (add_checked_node w id n if_none_match s)
        (λ config e. add_checked_node-Goes w s config e id n if_none_match))
  run_call-Outcome (patch_node id n) s = Goes-Outcome s _ (
      opened-Goes w s (update_checked_node w id n s)
        (λ config e. update_checked_node-Goes w s config e id n))
  run_call-Outcome (delete_node id) s = Goes-Outcome s _ (
      opened-Goes w s (delete_found_node w id s)
        (λ config e. delete_found_node-Goes w s config e id))
  run_call-Outcome (put_profile id p if_none_match) s = Goes-Outcome s _ (
      opened-Goes w s (add_checked_profile w id p if_none_match s)
        (λ config e. add_checked_profile-Goes w s config e id p if_none_match))
  run_call-Outcome (patch_profile id p) s = Goes-Outcome s _ (
      opened-Goes w s (update_checked_profile w id p s)
        (λ config e. update_checked_profile-Goes w s config e id p))
  run_call-Outcome (delete_profile id) s = Goes-Outcome s _ (
      opened-Goes w s (delete_unused_profile w id s)
        (λ config e. delete_unused_profile-Goes w s config e id))

  module _ (faithful : IsFaithful w) where
    -- What is read of a written file is linked where the registry was.
    written-Linked :
        (after config' read : NodesYaml) (file file' : File)
        → w.persist after file ≡ ((config', file'), none)
        → w.new file' ≡ (read, none)
        → Linked after
        → Linked read
    written-Linked after config' read file file' e r h = record {
      nodes = λ id n q name i u.
          let (m, there, same) = faithful.nodes_read after config' read file file' e r id n q in
          faithful.profile_read after config' read file file' e r name
            (h.nodes id m there name (same name i) u);
      profiles = λ id p q name i u.
          let (m, there, same) = faithful.profiles_read after config' read file file' e r id p q in
          faithful.profile_read after config' read file file' e r name
            (h.profiles id m there name (same name i) u);
    }

    run_call-FileLinked :
        (c : Call) (s : Server File)
        → (run_call w c s).0 ≢ some internal
        → FileLinked s
        → FileLinked (run_call w c s).1
    unfolding reload_server
    run_call-FileLinked c s no_error h = elim (run_call-Outcome c s) [
      | inl (_, same) ↦ subst FileLinked (sym same) h
      | inr (inl (e, _, _)) ↦ absurd (no_error e)
      | inr (inr (_, done)) ↦ λ config e.
          written-Linked done.after done.in_memory config s.file done.file done.written
            (sym (ap (λ z. w.new z.file) done.moved) ∙ e)
            (done.linked faithful (h done.before done.was_read))
    ]

    -- In a row of calls of which none answers with an internal error, what is read afterwards of
    -- nodes.conf names just profiles that exist, negations aside, if this held before. mergo adds no
    -- name of a profile, and a file that is written has the entries of the registry.
    pub run_calls-FileLinked :
        (calls : List Call) (s : Server File)
        → All (λ code. code ≢ some internal) (run_calls w calls s).0
        → FileLinked s
        → FileLinked (run_calls w calls s).1
    unfolding run_calls
    run_calls-FileLinked [] s no_error h = h
    run_calls-FileLinked (c ∷ calls) s no_error h =
        run_calls-FileLinked calls (run_call w c s).1 no_error.1
          (run_call-FileLinked c s no_error.0 h)

  set_node_info-yml :
      (db : NodeDb) (found : List Node × Option Text)
      → (set_node_info w.merge_profile w.merge_own db found).0.yml ≡ db.yml
  unfolding set_node_info
  set_node_info-yml db (nodes, some e) = refl
  set_node_info-yml db (nodes, none) = refl

  load_node_db-yml :
      (config : NodesYaml × Option Text) (db : NodeDb)
      → (load_node_db w.merge_profile w.merge_own config db).0.yml ≡ config.0
  unfolding load_node_db
  load_node_db-yml (yml, some e) db = refl
  load_node_db-yml (yml, none) db =
      set_node_info-yml (record db { yml = yml })
        (find_all_nodes w.merge_profile w.merge_own yml [])

  -- A call that changes nodes or profiles fails and leaves the server as it is; or it answers with an
  -- internal error, and the database and the statuses in memory stay, whatever is in the file; or
  -- it answers without an error, and the database holds the registry that nodes.conf then reads as.
  -- A `Persist` that gives no error keeps the nodes and profiles of the registry in memory.
  pub run_call-reloads :
      (keeps : KeepsEntries w) (c : Call) (s s' : Server File) (code : Option ErrorCode)
      → run_call w c s ≡ (code, s')
      → ((code ≢ none) × (s' ≡ s))
        ⊎ (((code ≡ some internal) × (s'.db ≡ s.db) × (s'.status ≡ s.status))
            ⊎ ((code ≡ none) × (s'.db.yml ≡ (w.new s'.file).0)))
  unfolding reload_server
  run_call-reloads keeps c s s' code e = elim (subst (Outcome s) e (run_call-Outcome c s)) [
    | inl same ↦ inl same
    | inr (inl unwritten) ↦ inr (inl unwritten)
    | inr (inr (answered, done)) ↦ inr (
        inr (
          answered keeps,
          ap (λ z. z.db.yml) done.moved
              ∙ load_node_db-yml (w.new done.file) s.db
              ∙ sym (ap (λ z. (w.new z.file).0) done.moved),
        ))
  ]
