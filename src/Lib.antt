-- ===== src/Lib.antt =====
-- machinecfg: a model of the Go program that reads machines and clusters from NetBox, makes
-- Tinkerbell Hardware objects of them in Kubernetes, and writes the state of Kubernetes back.
--
-- The parts, and how they work together:
-- * pkg/common (Common, Common/Filters): the device filters, the requests made of them, the
--   addresses of a prefix that have a tag. The devices that Hardware objects are made of are
--   listed by `get_devices`.
-- * pkg/cluster (Cluster): `SyncStatus` in sync_status.go records the endpoint of each cluster in
--   NetBox (Cluster/Sync: the loop; Cluster/Sync/Steps: the stages of a round; Cluster/Records:
--   the look-ups and creations; Cluster/Endpoint, Cluster/Tailscale: where a cluster answers).
--   show.go and ipaddr.go are Cluster/Show and Cluster/IpRows.
-- * pkg/tinkerbell (Tinkerbell): Hardware makes the objects of devices (hardware.go), Reconcile
--   brings an object that exists up to date (hardware.go, ReconcileExistingHardware), Status sets
--   the status of devices (sync_status.go), Patches is pxe.go and clean.go, Lookup is show.go.
--   Below Hardware, Made and Extracted are about the object of one device, Picks and Created about
--   the loops over devices; below Status, Held and Settles are about a run over the objects.
-- * internal/controller/kubernetes_updater (KubernetesUpdater): Config is config.go, with splitCSV
--   in Csv; Sync is netbox_sync_reconciler.go, which calls Tinkerbell/Hardware and
--   Tinkerbell/Reconcile, and Sync/Rounds is about its loops. A Result beside an error is left
--   out, since controller-runtime does not read it. Watches has the predicates and requests of
--   SetupWithManager, Process is controllers/controller-kubernetes-updater/main.go, which starts
--   the reconcilers.
-- * internal/controller/netbox_updater (NetboxUpdater): Config is config.go, Devices is
--   hardware_reconciler.go, Clusters is cluster_reconciler.go, which calls Cluster/Sync. Process
--   is controllers/controller-netbox-updater/main.go, which starts them, and Watches the rest of
--   SetupWithManager. Events puts the two reconcilers together: a list of events, each handled
--   whole by its reconciler, with any change to Kubernetes in between.
-- * cli/machinecfg/cmd (Command): Arguments is root.go; HardwareSync is hardware_sync.go, which
--   runs Tinkerbell/Hardware and Tinkerbell/Reconcile against one cluster; Configs is flatcar.go,
--   fcos.go and machineconfig.go, which write what Butane and Talos make; HardwareShow is
--   hardware_show.go. Clusters is cluster_show.go, cluster_ipaddr.go and cluster_sync_status.go,
--   Machines is hardware_pxe.go, hardware_clean.go and hardware_sync_status.go, and Run has what
--   these share, with getK8sClient of root.go; Reports, Refused and Reads are about them.
-- * pkg/butane (Butane): Config is common.go, the files and texts both systems share; Networkd and
--   Flatcar are flatcar.go, Fcos is fcos.go; below Flatcar, Found says which VLANs the interfaces
--   of a device show, and Files is about the loops that find them. Tinkerbell/Hardware calls the
--   two functions that make the ignition text of a device.
-- * tooling (Tooling): seed-netbox and seed-authentik, which fill the servers of a test
--   environment with clients of their own (SeedNetbox/Client, SeedAuthentik/Client).
-- * pkg/talos (Talos): the Talos machine configuration of a device (talosconfig.go).
--
-- The state and the operations. A Go function that may fail is an `Exec S A` (Effect): from a
-- state it gives a value, an error or a panic, with the state that is left. A step that the code
-- logs and passes over is an `attempt`; `fmt.Errorf` with %w is a `wrap`. The state of NetBox and
-- of Kubernetes is that of their clients, which are records of operations (Netbox, Kube): what a
-- request answers is a parameter, and a theorem that relies on it names what it relies on
-- (HasPages, Answers, ShowsCreated, ShowsHighest, SetsStatuses, KeepsLabels, HoldsGroups,
-- KeepsGroups, KeepsObjects, Documented). Functions have the source's names in snake case. The
-- loops are recursions on the lists that the code walks.
--
-- Parameters for other code that is not modelled: json.Unmarshal into a list of texts and
-- json.Marshal of rows, time.ParseDuration, netbox.NewAPIClientFor, the client libraries of
-- Kubernetes that getK8sClient calls, the start of tracing and the registration of a reconciler,
-- and the translation of a configuration by Butane with the JSON of its result.
--
-- Numbers and texts. An int32 is its bit pattern, a number below 2 ^ 32, and the next group number
-- wraps around there; printing one takes ten rounds, since it has at most ten digits. Parsing an
-- IPv6 address takes eight rounds, one for each group of two bytes (Net, Net/Rounds). A text is a
-- list of characters; lower case is that of ASCII, and %q adds quotes without escapes. A Go map is
-- a list of pairs, a nil map or slice an empty one. Durations are numbers of nanoseconds.
--
-- Not modelled: logging; the set-up of cobra and the alignment of tables; otel.go and the managers
-- of the controllers with their probes, which only call libraries; the printing of YAML, of
-- ignition files and of tokens; the HTTP clients of seed-authentik. Reads of the configuration and
-- its update are single steps, as the lock makes them; two reconcilers that run at once are not
-- interleaved within a run.
--
-- What `SyncStatus` promises of the FHRP groups is a step relation of its own (Cluster/Groups),
-- and Cluster/Sync/Groups is about the rounds of a run against it.
--
-- Prelude holds the shared names. Effect/Meets has the rules for actions that never panic,
-- Effect/Moves those for actions that move the state along a preorder, Effect/Ends those for what
-- holds of the state when an action ends, Effect/Repeats those for actions that a later run
-- repeats, Effect/Inverts what the success of two actions in a row says of each, and Effect/Reads
-- the answers of actions that write nothing. Text and Net are what the code uses of strconv,
-- strings and net, and Examples the runs on a small NetBox.
pub mod Prelude
pub mod Effect
pub mod Text
pub mod Netbox
pub mod Kube
pub mod Net
pub mod Common
pub mod Cluster
pub mod Tinkerbell
pub mod KubernetesUpdater
pub mod NetboxUpdater
pub mod Examples
pub mod Command
pub mod Butane
pub mod Talos
pub mod Tooling
