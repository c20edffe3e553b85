-- ===== src/Lib.antt =====
-- MicroOVN keeps a cluster database (dqlite, through microcluster) with the members, the services that are
-- enabled on them and the configuration options, and makes the snap services, the certificates, the files
-- and the OVN databases of each host follow it. The files model the daemon's Go code under microovn/.
--
-- Every Go function that takes a context and a state is an action (Effect.M) over a world: the cluster
-- database and the list of calls made so far to what is outside of the program (SQL driver, subprocesses,
-- file system, clock, crypto libraries). An environment (Effect.Env) gives the name and address of the
-- member and answers each call, in a way that may depend on all calls before it, so a theorem about every
-- environment covers each pattern of failing calls. A transaction keeps what its body wrote if the body and
-- the commit succeed, and nothing otherwise. A panic is a result of its own. Messages that are only logged
-- are left out.
--
-- Files:
-- - Prelude, Text: shared lists and tests; the functions of the packages strings, strconv and unicode that
--   the code uses.
-- - Database, Database/Schema, Database/Services, Database/Config: microovn/database/schema.go, and the
--   operations of service.mapper.go and config.mapper.go; each prepared statement is a call and a function
--   on the table. Services/View and Config/Laws state what the tables stand for, a set of pairs and a map.
-- - Effect: actions, transactions, and the rules for what an action keeps (Keeps, Quiet, Outcome).
-- - Config: microovn/config/config.go. Types: microovn/api/types/services.go.
-- - Snap, Paths: microovn/snap/snap.go and microovn/ovn/paths/paths.go.
-- - Certificates: microovn/ovn/certificates/certificates.go; Certificates/Custom has SetNewCACertificate.
-- - Environment: microovn/ovn/environment/environment.go. The functions of net/netip are fields of Env.
--   Environment/Removal and Environment/Cleanup follow CleanupPaths through its backups.
-- - Commands, Cluster: microovn/ovn/cmd/commands.go and microovn/ovn/cluster/cluster.go.
-- - Node: microovn/node/node.go; Node/Lifecycle has EnableService and DisableService. The package
--   microovn/bgp is an interface there (Node/Bgp): starting and stopping BGP leaves the database alone.
-- - Ovsdb: microovn/ovn/ovsdb/ovsdb.go. The query of the other members is a parameter, peers, of the upgrade;
--   Ovsdb/Members has the query of the source, and Ovsdb/Progress follows a leader through the rounds.
-- - ApiConfig: microovn/api/config/config.go, on decoded requests; net.ParseIP is a parameter.
-- - Hooks: microovn/ovn/leave.go and microovn/ovn/refresh.go, with bootstrap.go, join.go and start.go in
--   Hooks/Bootstrap, Join and Start; Started and Joined follow a member that joins, Bootstrapped the first
--   one. Hooks/Requested is microovn/ovn/ovn.go. Dpu: microovn/ovn/dpu/dpu.go.
-- - Bgp: microovn/bgp/redirect.go in Asn, Vrf, Names, Networks and Teardown, microovn/bgp/service.go in
--   Service and BirdConfig; Bgp/Frame fills the interface Node/Bgp with it. Deletions, Switches and OwnSwitches
--   are about the switches that the teardown deletes. Netplan: microovn/netplan/netplan.go.
-- - Api: what the handlers share. ApiBgp: microovn/api/bgp/endpoints.go. ApiCertificates:
--   microovn/api/certificates. ApiServices: microovn/api/services. ApiOvsdb:
--   microovn/api/ovsdb/schema_version.go. The handlers take decoded requests, and what the other members
--   reply comes through parameters (Api.Replies, ApiOvsdb.Peers). Queries that the program makes at the same
--   time are made one after the other.
-- - ApiRefresh: microovn/api/refresh.go. History: the daemons of the members at work, with the hooks of
--   microovn/cmd/microovnd/main.go and the endpoints of microovn/api/endpoints.go as events. The children of
--   History follow what each hook and endpoint does to the services of all members; Guarded has the relation.
-- - Client: microovn/client/client.go. Cli: the commands under microovn/cmd/microovn, which take their flags as
--   arguments. Printing has the printers of microovn/api/types; ServiceControl, ConfigCommands (with
--   setup_bgp.go), Certificates (set-ca, reissue, regenerate-ca), CertificatesReport (list), StatusReport and
--   ClusterCommands (with waitready.go) have the commands. Init has the values of init, and Init/Dialogue
--   the questions and the request to the daemon.
-- - Examples: the theorems at work on a cluster of two members.
--
-- Fuel: the search for a VRF table runs over the candidates 10 to 4294967295 of the source, one per unit of
-- fuel, so it has as much fuel as the source has rounds. The upgrade loop of Ovsdb has no bound in the
-- source: its fuel counts rounds, and its result says whether it ended in that many. The same holds for the
-- question of init for more servers. A command is run three times at most, as in the source.
--
-- Not modelled: the tables of flags and commands of cobra, what the SQL scripts of the schema do, the logs,
-- and packaging. The packages yaml.v3, crypto/md5 and encoding/json are parameters. A subprocess that fails prints
-- nothing. The three endpoints of ApiOvsdb write nothing to the cluster database and are not events of History.
-- Two nodes that act at the same time are not modelled: each theorem is about one action that runs by itself,
-- or about actions one after the other; Examples/Leaving has one run of two that are interleaved.
pub mod Prelude
pub mod Text
pub mod Database
pub mod Effect
pub mod Config
pub mod Types
pub mod Bgp
pub mod Snap
pub mod Paths
pub mod Certificates
pub mod Environment
pub mod Commands
pub mod Cluster
pub mod Node
pub mod Examples
pub mod Ovsdb
pub mod ApiConfig
pub mod Hooks
pub mod History
pub mod ApiRefresh
pub mod Netplan
pub mod Api
pub mod ApiOvsdb
pub mod Client
pub mod Cli
pub mod Dpu
pub mod ApiCertificates
pub mod ApiServices
pub mod ApiBgp
