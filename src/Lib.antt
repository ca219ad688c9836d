-- ===== src/Lib.antt =====
-- Quilt: a cluster whose machines, containers, connections and placement rules follow a blueprint.
--
-- The controller (engine/, cloud/) turns the blueprint into rows of a machine table, and makes the
-- cloud providers follow it. Each minion (minion/) turns the blueprint that it is sent into its own
-- tables of images, containers, load balancers, connections and placement rules; the leader places
-- the containers on the workers (minion/scheduler/), gives them addresses and writes the rules of
-- the network (minion/network/). All parts share an in-memory database (db/), and all compare what is
-- wanted with what is there by one of two joins (join/).
--
-- Files:
--   Prelude: tests, lists, integers and equality over the native numbers.
--   Maps: Go's maps as association lists, and `Order`, the order of a `range` over one, which is a
--     parameter that only permutes.
--   Join: join/join.go. Score and Hash have the loops of `Join` and `HashJoin`.
--   Db: db/. Table has the operations of a transaction on one table (`Commit`, `Remove`, `insert`, …),
--     Rows, MinionRows and EtcdRows the row types, Sync, Replace and Refresh the three shapes in which
--     callers change a table after a join. Tables and Locks have the locks of the tables: `Txn`,
--     `lockTables` and `unlockTables` as steps of threads; Ranks, Owners, Progress and Drain are about
--     them.
--   Cloud: cloud/machine/machine.go (Size), db/constants.go and cloud/ (Providers), cloud/cloud.go (Sync),
--     cloud/status.go (Status), and cloud.go's runOnce (Cycle).
--   Engine: engine/engine.go, `toDBMachine` and `machineTxn`.
--   Minion: minion/engine.go, `updatePolicy` and what it calls (Ports, Updates); minion/server.go (Server), with
--     strings.Split (Lines); minion/registry/registry.go (Registry).
--   Scheduler: minion/scheduler/master.go (Placement, Context, Make) and worker.go (Worker). Gather
--     and Contexts are about `makeContext`, Tied and Placed about the loops behind it, Commits and Committed
--     about the table afterwards.
--   Network: minion/network/ip.go (Addresses), acl.go (Acls), network.go and load_balancer.go (Switch),
--     dns.go (Hostnames), nat.go (Nat).
--   OpenFlow: minion/network/openflow/openflow.go (Flows), openflowContainers and updateOpenflow of
--     minion/scheduler/worker.go and minion/ipdef/ipdef.go (Containers). Pseudocode is the comment at the top of
--     openflow.go, Switch the rules that the comment gives for reading it and the flows.
--   Foreman: cloud/foreman/foreman.go, the map of the minions (Minions) and the rounds (Run).
--   Etcd: minion/etcd/util.go, hostname.go and connection.go, the rounds that carry the leader's tables to
--     the other minions (Store), container.go (Containers) and minion.go (Minions), elector.go (Elector, and
--     Election as steps of the minions).
--   Supervisor: minion/supervisor/supervisor.go (Run), master.go (Master) and worker.go (Worker).
--   Inspect: cli/command/inspect/graph.go.
--   Util: util/util.go, `BackoffWaitFor` (Backoff).
--   The other modules are about these; Examples has runs and instances at concrete inputs.
--
-- Choices: a table is the list of its rows, each kept under its own id. A Go map inside a row is the
-- list of its entries in the order of the keys. Numbers that are never negative are naturals; 32-bit
-- addresses wrap as in the source. A panic is `none` (or a constructor of its own). Pointers to
-- containers are numbers into a memory. A float is an abstract type with the tests that the code makes.
-- Threads are numbers, and what they do is a relation between states, so that every schedule is covered.
-- Loops are structural recursion; the three tries for addresses and the hosts of a subnet are counted.
--
-- Not modelled: services and their clients (cloud providers, docker, OVSDB, iptables, etcd), the
-- parsing of blueprints, triggers, goroutines other than those that run transactions, logging and
-- counters, printing. Where a function calls such code, the code is an argument of the definition.
pub mod Prelude
pub mod Maps
pub mod Join
pub mod Db
pub mod Cloud
pub mod Engine
pub mod Minion
pub mod Scheduler
pub mod Network
pub mod Foreman
pub mod Etcd
pub mod Inspect
pub mod OpenFlow
pub mod Supervisor
pub mod Util
