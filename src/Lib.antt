-- ===== src/Lib.antt =====
-- A verification library for nylon, a mesh VPN whose nodes route with the Babel protocol (RFC 8966).
--
-- The program. Each node keeps links to its neighbours (state/endpoint.go), over which it measures
-- delay and loss, and a routing state (state/routing.go): per neighbour the routes that it announced,
-- the selected routes, the source table of feasibility distances, and the node's own prefixes.
-- core/router_algo.go holds the algorithm as functions of that state and of an interface `Router`,
-- through which it sends updates and requests to the neighbours and changes the forwarding table.
-- Messages from the neighbours and timers call these functions, one at a time. A second service
-- carries packets from node to node under an MPLS label (core/nylon_unicast.go), which is the node's
-- number in a table that every node derives from the central configuration
-- (state/node_id_numeric.go).
--
-- Which file models which part:
--   Base (Tests, Lists, Maps, Int, Results)   shared names, tests, lists, maps, integers, results
--   Platform                         node names, prefixes and floating-point numbers
--   Tunables                         state/tunables.go: RouterTunables, DefaultRouterTunables
--   Endpoint.Filter                  state/endpoint.go: delayFilter
--   Endpoint.Link                    state/endpoint.go: NylonEndpoint, its probes, echoes and losses
--   Endpoint.Cost                    state/endpoint.go: metrics, CompareEndpoints, BestEndpoint, LinkCost
--   Router.Metric                    core/utils.go: AddMetric and the tests on sequence numbers
--   Router.State                     state/routing.go: the records; the interface Router as `Call`
--   Router.Feasibility               core/router_algo.go: updateFeasibility, checkFeasibility
--   Router.Selection                 core/router_algo.go: the candidates and the choice in ComputeRoutes
--   Router.Compute                   core/router_algo.go: ComputeRoutes, isHeldRoute, retract
--   Router.Handlers                  core/router_algo.go: HandleNeighbourUpdate, HandleAckRetract,
--                                    HandleSeqnoRequest
--   Router.Maintenance               core/router_algo.go: FullTableUpdate, PushFullTable, RunGC,
--                                    SolveStarvation
--   Router.Messages                  core/router.go: routerHandleRouteUpdate, routerHandleAckRetract,
--                                    routerHandleSeqnoRequest
--   Router.Pending                   core/router.go: IOPending, SendRouteUpdate, RequestSeqno, GcRouter
--   Router.Flush                     core/router.go: flushIO
--   Router.Run                       core/router.go: InitRouter, and the steps of the whole router
--   Tables                           core/router.go: TableInsertRoute, TableDeleteRoute, the tables
--   Config.Names, Config.Lines,      state/config.go: ParseGraph, parseSymbolList, MakeSortedPair and
--   Config.Graph                     the loop of GetPeers; state/pair.go: SortPairs
--   Config.Endpoints                 core/nylon_apply.go: configuredEndpoints,
--                                    reconcileConfiguredEndpoints
--   Config.Neighbours                core/nylon_apply.go: reconcileRouterState
--   Config.Validation                state/validation.go: CentralConfigValidator;
--                                    state/config.go: GetPeers
--   Future                           core/future.go: NewFuture, Await, AwaitAll
--   NodeIds                          state/node_id_numeric.go: BuildNodeIdMap, ToNumeric, ToString
--   Unicast                          core/nylon_unicast.go: MPLS labels, wrapExitPacket,
--                                    handleMplsPacket
--   Tests                            concrete networks and runs
-- The modules below each of these hold its theorems.
--
-- How the code is read. A Go map is an association list with `find`, `put`, `delete`, `keep`; the
-- order of the list stands for the order of an iteration, which Go leaves open. A method that changes
-- the state returns the new state; the calls that it makes on `Router` are a list of `Call` values in
-- their order. An operation reads the clock once, as the argument `now` (nanoseconds). Log events
-- are left out. `uint16` sequence numbers wrap by `% 2 ^ 16`; `uint32` metrics stop at `inf`; `int64`
-- durations are integers, without their overflow. A reading of an endpoint by the router is one of a
-- snapshot: the memory that `delayFilter.stabilized` keeps between readings is an operation of
-- Endpoint.Filter and Endpoint.Link, and is not carried through the router's state. An index out of
-- range in it, where the source panics, is `none`, which the relative delays pass on as not ready.
--
-- Parameters. `Platform` holds what the code takes from elsewhere: node names with their order,
-- prefixes, of which only equality matters, peers of the wireguard device, and `float64`, of which
-- the operations are those of the language. The theorems assume no law of floating-point arithmetic.
-- `DedupCache` is the expiring cache that core/router.go takes from ttlcache, and `PrefixTable` the
-- table that it takes from bart, with the laws of insertion and deletion. The size of a protobuf
-- message and the outcome of a send are arguments of the flush. A line of the graph is given as its
-- parts, in lower case, split and trimmed. `Host` holds the texts of endpoints with what parsing makes
-- of them, and the host's routes. The validator takes `NameValidator`, `netip.Prefix.IsValid` and the
-- outcomes of `url.Parse` and `netip.Addr.IsValid` as given.
--
-- Fuel. Two loops run on fuel, and the results below say that it is enough: the flush of one
-- neighbour gets one round more than there are waiting messages, and the expansion of groups as many
-- rounds as there are groups. Every other loop runs over a list, or over the numbers that are left
-- below the largest label.
--
-- Not modelled: the polyamide copy of wireguard-go and its calls, sockets and timers, the control
-- socket, the reading of configuration files, the rest of a
-- configuration change, the health checks of prefixes, and the system interfaces.
pub mod Base
pub mod Platform
pub mod Tunables
pub mod Endpoint
pub mod Future
pub mod NodeIds
pub mod Router
pub mod Tables
pub mod Unicast
pub mod Config
pub mod Tests
