-- ===== src/Lib.antt =====
-- darwin-net: the network of a Kubernetes node on macOS. The model follows the Go packages under pkg/.
--
-- The program's parts and how they interact. Package podnet carves a /24 per node out of the cluster
-- CIDR and gives each pod an address of it, kept alive by an lo0 alias. Package proxy routes Service
-- connections: its routing table picks a backend, with ClientIP affinity, and its policy table says
-- whether the source may reach that backend. Package mesh turns the peers' specs into wireguard peers
-- and kernel routes for their /24s. Package ingress matches requests to Service backends, and package
-- dns gives pods their search list and the names that a query tries.
--
-- Files and what they model:
--   Prelude       shared lists, maps as association lists, results, text
--   Netip         addresses and prefixes of Go's net/netip, without zones
--   Podnet/Cidr         pkg/podnet/allocator.go (NodeCIDR, NodeIndex), pkg/podnet/meshegress.go
--   Podnet/Allocator    pkg/podnet/allocator.go (Allocator)
--   Podnet/Blackhole    pkg/podnet/blackhole.go (BlackholeRoutes)
--   Podnet/Alias        pkg/podnet/alias.go (lo0AliasManager)
--   Podnet/Network      pkg/podnet/podnet.go, guest.go, reconcile.go (Network)
--   Proxy/Routing       pkg/proxy/routing.go (RoutingTable), pkg/proxy/affinity.go
--   Proxy/Policy        pkg/proxy/policy.go (PolicyTable)
--   Proxy/Transport     pkg/proxy/routing.go (transport overrides), pkg/proxy/meshegress.go
--   Proxy/NodePort      pkg/proxy/nodeportset.go (nodePortSet, NodePortSwap)
--   Proxy/Drift         pkg/proxy/vipstate.go (DiffBackendSets), pkg/proxy/antientropy.go
--   Linkwatch           pkg/linkwatch/linkwatch.go (diff, Debounce)
--   Mesh/Plan           pkg/mesh/plan.go (RouteSet, BuildPlan, ValidatePlan)
--   Mesh/Uapi           pkg/mesh/plan.go (UAPIUpdate)
--   Mesh/Refuse         pkg/mesh/refuse.go (refuseSYN, tcpReset, refuser)
--   Ingress/Route       pkg/ingress/route.go (RouteTable)
--   Dns/Search, Dns/Merge, Dns/Expand   pkg/dns/normalize.go, merge.go, expand.go
--   Dns/Partial         pkg/dns/partial.go, and isDNSLabel and normalizeDomain of pkg/dns/synth.go
--   Dns/Pod             pkg/dns/dnsconfig.go (PodDNSConfig)
--   Dns/Env             pkg/dns/env.go, and GuestResolvConfFields of pkg/dns/resolvconf.go
--
-- State and operations. A struct is a record, and a method is a function from the record to the next
-- one, under the name of the method in snake case. A mutex or an atomic snapshot makes a method one
-- step; the interleaving of two methods is not modelled. An error is the case that the source reports,
-- without its text. Calls into k3sm.io/apis, ParsePrefix, ParseAddr and the key encodings are records of
-- functions (EndpointRules, MeshRules, DnsApis); the alias manager is the record AliasManager, and the sweep's
-- theorem takes the documented behaviour of its removal (RemoveLaws), which the lo0 manager fills. The
-- kernel behind that manager (ifconfig on lo0, the routing socket) and the network stack behind the node
-- ports are the records Kernel and Sockets, with their documented behaviour in KernelLaws and
-- SocketLaws. An anti-entropy pass takes what it finds as an argument and gives its effects as a list
-- of actions; a goroutine that selects on channels is a step per received value.
--
-- Bounds and fuel. Addresses are below 2 ^ 32 and the arithmetic of allocator.go wraps there. The scan
-- of Allocate runs usableCount rounds, 253 for a /24, as in the source. The walk of SweepStale has 256
-- rounds, which is enough since it starts and ends in one /24. The cursor of a port is a uint64 and
-- wraps at 2 ^ 64. Install's loop has fuel for two rounds, and more changes nothing;
-- so has the fold of a checksum, which is enough for a uint32. Times are nanoseconds since some start; counters and caps that the source keeps as
-- int are natural numbers.
--
-- Not modelled: sockets, goroutines, informers and logging; the privileged helper (pkg/netd); the
-- resolver of pkg/dns, the rendered text of a resolv.conf, and the C shim that reads the environment, with
-- the sizes of its buffers and the trailing dot that it strips; the derivation of backend sets from API
-- objects; the polling of links; the device and the route I/O of pkg/mesh; the observers of the routing
-- table; the HTTP side of pkg/ingress.
pub mod Dns
pub mod Ingress
pub mod Linkwatch
pub mod Mesh
pub mod Netip
pub mod Podnet
pub mod Prelude
pub mod Proxy
