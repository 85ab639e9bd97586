-- ===== src/Lib.antt =====
-- Warewulf: the core of the Go program, as definitions by clauses and theorems about them.
--
-- Warewulf provisions a cluster of stateless nodes. The registry of nodes and profiles
-- (internal/pkg/node) says what each node is; patterns of node names (internal/pkg/hostlist) pick
-- nodes on the command line and in group files; the overlay differences (internal/pkg/overlaydiff)
-- compare a node's file tree with a baseline; the server (internal/pkg/warewulfd) finds a node by its
-- hardware address and decides what it may have.
--
-- Common: the names of the libraries passed on, Boolean tests, lists, texts (a Go string is its
-- list of bytes, `Text`), sorting, and Go maps. A map is an association list, read in the order in
-- which `range` happens to run; `IsMap` says that no key stands twice, which holds of every Go map.
--
-- Hostlist (internal/pkg/hostlist/hostlist.go): `Expand` is `expand`, its loop over rounds is
-- `expand_loop` and one round, `expandOnce`, is `expand_once`; `splitTopLevel` is `split_top_level`,
-- `resolveGroups` is `resolve_groups`, `Compress` is `compress`. The fuel of `expand_loop` is one
-- more than the opening brackets of the list, since each round takes one from every name that it
-- expands. A range that ends at the largest `int` never ends in Go: the model gives `hung` there.
-- The resolver of `SetGroupResolver` is the argument `members`. `Atoi` is modelled with its
-- saturation on a platform of 64 bits.
--
-- Node (internal/pkg/node): the structs of datastructure.go, and `getNodeProfiles` of mergo.go. A
-- pointer to a struct that may be absent is an `Option`, the embedded `Profile` of a node is a
-- field. `get_profiles_profiles` recurses on fuel for its depth: a profile is entered once, so the
-- number of profiles is enough.
--
-- Node/Queries, Node/Groups, Node/Registry and Node/Merge follow queries.go, groups.go, modifiers.go
-- with constructors.go, and mergo.go. A call that changes the registry gives the registry after it.
-- `MergeNode` is `merge_node`; the package mergo is the pair of arguments `merge_profile` and
-- `merge_own`, one for each type that the source merges, and the theorem on groups asks of them that
-- they append the groups, as `mergo.WithAppendSlice` does. What a merged node shares with the registry
-- by pointers, and the record of the sources of its fields, are left out.
--
-- Node/Storage is storage.go: `GetIgnitionStorage` is `get_ignition_storage`, whose sort takes a
-- comparison that may panic. It reads the pointers in the maps of a node as options, `none` where they
-- are nil; elsewhere in Node the maps hold the structs themselves, so no pointer in them is nil.
--
-- Overlaydiff (internal/pkg/overlaydiff): `Compare` is `compare_trees`, on snapshots that are maps
-- from paths to entries; the exclusion tests and default excludes are in Overlaydiff/Paths.
-- Overlaydiff/Hashing is `populateFileHashes`: the sending goroutine and the workers are a state
-- `Pool`, and `Step` has one constructor for each thing that one of them can do next, in any order;
-- what `hashFile` finds is the argument `hash_file`. Overlaydiff/Includes, Filter and Artifact follow
-- `dedupeTopLevelIncludes`, filter.go, and of artifact.go the manifest and its
-- normalised form. A root or a prefix holds a path that is equal to it or begins with it and a slash,
-- as the code tests it.
--
-- Warewulfd (internal/pkg/warewulfd): `parseRequest` is `parse_request`, on what net/http makes of a
-- request; `initHandleRequest` is `init_handle_request`, which gives an HTTP status or the context of
-- the handler, and the statuses of the nodes after the call. Warewulfd/NodeDb is nodedb.go with
-- `FindDiscoverableNode`, Warewulfd/Discovery is its `GetOrDiscoverNode`,
-- Warewulfd/Status is `LoadNodeStatus`, and Warewulfd/Provision the choice of a handler in
-- `HandleProvision`. What `ArpFind` reads and what `node.New` gives are arguments, and so is what
-- `GetOrDiscoverNode` answers to `init_handle_request`. Node/Changes is `SetNode`, with what
-- encoding/gob sends and what a receiver makes of it.
--
-- `get_or_discover_node` takes net.ParseMAC, `Persist` and the reading of the file as arguments. Its
-- theorem asks of them, in `HasLaws`, that a registry that is written is the one that is read, with
-- unset values read as empty, and that an accepted address is a value; of mergo that it keeps the
-- node's own address of a device, and the node's own `discoverable`, in the node.
--
-- Warewulfd/Api (internal/pkg/warewulfd/api): each handler of the REST interface that reads or
-- changes nodes and profiles is a function from the server, which is nodes.conf with the database
-- and the statuses in memory, to an answer and the server after it; `run_call` is one request that
-- changes something. nodes.conf is of an abstract type with the functions `new` and `persist`; a
-- theorem asks, in `IsFaithful`, that what is read has the entries of what was written, and
-- another one, in `KeepsEntries`, that writing keeps the entries of the registry in memory.
-- Warewulfd/Api/Authentication is `AuthMiddleware`, and Config/Authentication the users that it
-- checks.
--
-- Upgrade (internal/pkg/upgrade): the old formats are Upgrade/Types and Upgrade/Config/Types; the
-- upgrade of nodes.conf is `upgrade_nodes_yaml` (Upgrade/Nodes, with Upgrade/Profiles,
-- Upgrade/Devices, Upgrade/Values and Upgrade/Slices for its parts), that of warewulf.conf is
-- `upgrade_config` (Upgrade/Config). A panic of a type assertion or on a nil pointer in a map is
-- `none`. What net.ParseIP and net.ParseCIDR give, and what is found of kernels in the file
-- system, is the record `Host`. Config/Types holds the structs of internal/pkg/config.
--
-- Image (internal/pkg/image): Image/Syncuser is syncuser.go on the lines of the passwd and group
-- files that are read, and `update` on the content of the file that is copied from the host, which
-- need not be the one that was read; the search for files in the image and the change of their
-- owners are left out.
--
-- Not modelled: the walk over a file system, YAML and JSON, HTTP, external programs, logging, and
-- the command line. The building of overlays (internal/pkg/overlay) renders templates and writes
-- files; the import of images, the client on a node (internal/app/wwclient) and `wwctl configure`
-- run other programs on files; the flags, the difference and the update of a node
-- (internal/pkg/node) work by reflection. What a Go function only prints is left out.
pub mod Common
pub mod Config
pub mod Hostlist
pub mod Image
pub mod Node
pub mod Overlaydiff
pub mod Upgrade
pub mod Warewulfd
