-- ===== src/Upgrade/Nodes/Panicking.antt =====
-- When an upgrade of nodes.conf panics.
use warewulf.Common.{◌⊎◌}
use warewulf.Upgrade.Types.{LegacyNodesYaml}
use warewulf.Upgrade.Values.Entries.{HoldsNullOr}
use warewulf.Upgrade.Profiles.Readable.{IsUnreadable}

-- Some profile or node of the file is null or unreadable.
abbrev pub HasUnreadable : LegacyNodesYaml → Type 0
HasUnreadable legacy =
    HoldsNullOr IsUnreadable legacy.node_profiles
    ⊎ HoldsNullOr (λ n. IsUnreadable n.profile) legacy.nodes
