-- ===== src/Warewulfd/Discovery/Configured.antt =====
-- The registry that a discovery writes, loads and answers from.
use warewulf.Common.{
  ◌≡◌, refl, sym, ◌∙◌, ap, Bool, List, [], Option, none, some, arith, inl, inr, Option-cases,
}
use warewulf.Common.Text.{Text, codes}
use warewulf.Common.Maps.{lookup, insert, IsMap, lookup-insert_self}
use warewulf.Common.Results.{Result, ok, err}
use warewulf.Node.Types.{Profile, Node, NodesYaml}
use warewulf.Node.Registry.{empty_node, err_not_found}
use warewulf.Node.Merge.{merge_node}
use warewulf.Node.Groups.{find_all_nodes}
use warewulf.Node.Merge.Kept.{HasAddress}
use warewulf.Node.Changes.{received_node, set_node}
use warewulf.Node.Changes.Received.{set_node_found}
use warewulf.Warewulfd.NodeDb.{NodeDb, set_node_info, load_node_db}
use warewulf.Warewulfd.Access.{configured, unavailable}
use warewulf.Warewulfd.Discovery.{
  share_devices, with_devices, node_changes, change_node, answer, answer_loaded, reload, save,
  configure,
}
use warewulf.Warewulfd.Discovery.Known.{HasLaws, received_node-HasAddress}

pub answer-configured : (r : Result Node) (n : Node) → answer r ≡ configured n → r ≡ ok n
answer-configured (ok m) n h = cc
answer-configured (err e) n h = cc

module _ (merge_profile : Profile → Profile → Result Profile)
    (merge_own : Node → Node → Result Node) where
  -- A load that succeeds is of a registry that is read without an error.
  load_node_db-yml :
      (r : NodesYaml × Option Text) (db db' : NodeDb)
      → load_node_db merge_profile merge_own r db ≡ (db', none)
      → (r.1 ≡ none) × (db'.yml ≡ r.0)
  unfolding load_node_db set_node_info
  load_node_db-yml (yml, some e) db db' h = absurd (ground (arith, ap (λ z. z.1) h))
  load_node_db-yml (yml, none) db db' h =
      (refl, go (find_all_nodes merge_profile merge_own yml []) h)
    where
      go :
          (f : List Node × Option Text)
          → set_node_info merge_profile merge_own (record db { yml = yml }) f ≡ (db', none)
          → db'.yml ≡ yml
      go (nodes, some e) q = absurd (ground (arith, ap (λ z. z.1) q))
      go (nodes, none) q = sym (ap (λ z. z.0.yml) q)

  module _ (parse_mac : Text → Bool) (persist : NodesYaml → NodesYaml × Option Text)
      (read_back : NodesYaml → NodesYaml × Option Text) where
    answer_loaded-configured :
        (id : Text) (r : NodeDb × Option Text) (n : Node) (db' : NodeDb)
        → answer_loaded merge_profile merge_own parse_mac persist read_back id r
          ≡ (configured n, db')
        → (r ≡ (db', none)) × (merge_node merge_profile merge_own db'.yml id ≡ ok n)
    answer_loaded-configured id (db, some e) n db' h = absurd (ground (arith, ap (λ z. z.0) h))
    answer_loaded-configured id (db, none) n db' h =
        let same : db ≡ db' = ap (λ z. z.1) h in
        (
          ap (λ z. (z, none)) same,
          ap (λ z. merge_node merge_profile merge_own z.yml id) (sym same)
              ∙ answer-configured (merge_node merge_profile merge_own db.yml id) n
                  (ap (λ z. z.0) h),
        )

    reload-configured :
        (id : Text) (db : NodeDb) (r : NodesYaml × Option Text) (n : Node) (db' : NodeDb)
        → reload merge_profile merge_own parse_mac persist read_back id db r ≡ (configured n, db')
        → (written : NodesYaml) × (u : NodesYaml) × (r ≡ (written, none))
          × (read_back written ≡ (u, none))
          × (load_node_db merge_profile merge_own (u, none) (record db { yml = written })
              ≡ (db', none))
          × (db'.yml ≡ u)
          × (merge_node merge_profile merge_own u id ≡ ok n)
    reload-configured id db (w, some e) n db' h = absurd (ground (arith, ap (λ z. z.0) h))
    reload-configured id db (w, none) n db' h =
        let (loaded, merged) =
          answer_loaded-configured id
            (load_node_db merge_profile merge_own (read_back w) (record db { yml = w })) n db' h in
        let (calm, yml) = load_node_db-yml (read_back w) (record db { yml = w }) db' loaded in
        let read : read_back w ≡ ((read_back w).0, none) = ap (λ z. ((read_back w).0, z)) calm in
        (
          w,
          (read_back w).0,
          refl,
          read,
          ap (λ z. load_node_db merge_profile merge_own z (record db { yml = w })) (sym read)
              ∙ loaded,
          yml,
          ap (λ z. merge_node merge_profile merge_own z id) (sym yml) ∙ merged,
        )

    -- The registry that a discovery writes.
    pub record Configured (hwaddr id netdev : Text) (n : Node) (db' : NodeDb) : Type 0 where
      pub config : NodesYaml
      pub written : NodesYaml
      pub read : NodesYaml
      pub node : Node
      pub before : NodeDb
      pub there : lookup id config.nodes ≡ some node
      pub discoverable : node.discoverable ≡ codes "UNDEF"
      pub address : HasAddress netdev hwaddr node.profile
      pub persisted : persist config ≡ (written, none)
      pub read_again : read_back written ≡ (read, none)
      pub loaded : load_node_db merge_profile merge_own (read, none) before ≡ (db', none)
      pub yml : db'.yml ≡ read
      pub merged : merge_node merge_profile merge_own read id ≡ ok n

    pub configure-Configured :
        (laws : HasLaws merge_own parse_mac persist read_back) (hwaddr id netdev : Text)
        (db : NodeDb) (n : Node) (db' : NodeDb)
        → ((k : Text) (m : Node) → lookup k db.yml.nodes ≡ some m → IsMap m.profile.net_devs)
        → configure merge_profile merge_own parse_mac persist read_back hwaddr id netdev db
          ≡ (configured n, db')
        → Configured hwaddr id netdev n db'
    unfolding configure change_node
    configure-Configured laws hwaddr id netdev db n db' maps h =
        elim (Option-cases (lookup id db.yml.nodes)) [
          | inl e ↦ absurd (ground (arith, missing e, h))
          | inr (old, e) ↦
              let shared : NodesYaml = (change_node id netdev hwaddr db.yml old).0 in
              let kept : Node =
                with_devices (share_devices netdev hwaddr old.profile.net_devs) old in
              let there : lookup id shared.nodes ≡ some kept =
                lookup-insert_self id kept db.yml.nodes in
              let changes : Node = node_changes netdev hwaddr old in
              let set = set_node_found id changes shared kept there in
              let step : configure merge_profile merge_own parse_mac persist read_back hwaddr id
                    netdev db
                  ≡ save merge_profile merge_own parse_mac persist read_back id
                      (record db { yml = shared }) (set_node id changes shared) =
                rw (configure, e) refl in
              let new : Node = received_node changes kept in
              let config : NodesYaml = record shared { nodes = insert id new shared.nodes } in
              let saved : reload merge_profile merge_own parse_mac persist read_back id
                    (record db { yml = shared }) (persist config)
                  ≡ (configured n, db') =
                sym (
                  ap
                    (save merge_profile merge_own parse_mac persist read_back id
                      (record db { yml = shared }))
                    set)
                ∙ (sym step ∙ h) in
              let (w, u, p, r, l, y, m) =
                reload-configured id (record db { yml = shared }) (persist config) n db' saved in
              let (unset, address) =
                received_node-HasAddress netdev hwaddr old kept (maps id old e) in
              record {
                config = config;
                written = w;
                read = u;
                node = new;
                before = record db { yml = w };
                there = lookup-insert_self id new shared.nodes;
                discoverable = unset;
                address = address;
                persisted = p;
                read_again = r;
                loaded = l;
                yml = y;
                merged = m;
              }
        ]
      where
        missing :
            lookup id db.yml.nodes ≡ none
            → configure merge_profile merge_own parse_mac persist read_back hwaddr id netdev db
              ≡ (unavailable err_not_found, db)
        missing e =
            let gone : set_node id (node_changes netdev hwaddr empty_node) db.yml
                ≡ err err_not_found =
              unfold set_node in rw (set_node, e) refl in
            rw (configure, e, gone) refl
