-- ===== src/Lib.antt =====
-- The weft operator runs weft tunnels in a Kubernetes cluster. Its controllers turn the objects of the
-- API group weft.aquaduct.dev into deployments, domains of aquaduct.dev and cluster DNS entries, and a
-- webhook and a node agent make pods and nodes trust the certificates of the in-cluster proxies. This
-- library models the controllers' decisions and what their passes write.
--
-- The parts and their files:
--   - Prelude: lists, texts, Go's sort, association lists for Go's maps of strings.
--   - Kube: the answers of the API server, a reconcile pass that may return early and records its calls,
--     conditions of a status. Kube/Keeps has the rules for what a pass keeps.
--   - DnsRecord: internal/controller/dnsrecord/reconciler.go. DnsRecord/Reconcile has Reconcile,
--     handleDeletion, resolveAquaductTaaS, commitStatus and failure, cut into the stages of the source; a
--     World holds the answers during one pass. DnsRecord/Bastions has selectBastions. The domains of one
--     account are shared: GET, PUT, PATCH, DELETE and lookup are calls in the order of the source.
--   - WeftTunnel: internal/controller/wefttunnel/reconciler.go. WeftTunnel/Reconcile has Reconcile with
--     its deferred status update, and findTunnelsForServer, over a Cluster of operations on a state.
--     WeftTunnel/Laws states what is relied on of the API server.
--   - Gateway: internal/controller/weftgateway/reconciler.go. Gateway/Attach has the tests of which routes
--     bind to which listeners (Gateway/Attach/Meaning says what they mean) and which gateways an event
--     enqueues, Gateway/Routes the tunnels that routes come to (Gateway/Routes/Asks has them as a
--     relation), Gateway/Dns the DNSRecords of a gateway, Gateway/Reconcile the pass with deletion,
--     pruning and both statuses. Gateway/Laws states what is relied on of the API server, Kube/Store what
--     any store of objects promises to the loops that write and prune it: an object with a finalizer may
--     stay, marked as being deleted, after its deletion. The records that a gateway stamps are the
--     DNSRecords above, the tunnels it writes are those of WeftTunnel.
--   - AquaductTaas: syncWeftServers of internal/controller/aquaducttaas/reconciler.go, which mirrors
--     the servers of aquaduct.dev as the WeftServers that tunnels connect to.
--   - ApiClient: the client of aquaduct.dev, internal/controller/aquaducttaas/client.go (token cache, retry,
--     servers) and domain.go (ApiClient/Domains), over a Network of sent requests and a clock. Its
--     errors are those that the DNSRecord controller tells apart.
--   - Reflector: internal/controller/weftlocaldnsreflector/claims.go, which host names a reflector serves;
--     Reflector/ClusterDns: coredns.go, the server blocks and the reflector's key of CoreDNS's ConfigMap;
--     Reflector/Routes: routes.go, the routes of a reflector's proxy, from the tunnels of the cluster;
--     Reflector/UntrustedPods: untrustedPods of trust.go, which running pods do not trust its CA yet.
--   - HostsFile: internal/nodeagent/hostsfile.go, the managed blocks of /etc/hosts and of CA bundles.
--   - Trust: internal/trust/inject.go, the mutation of pods by the webhook.
--   - Resource: internal/resource, the create-or-delete helper and the image of the operands.
--   - Tests: runs on concrete inputs.
--
-- Calls of Kubernetes libraries, of the aquaduct.dev client, of url.Parse, regexp and net, and the clock
-- are parameters; where a theorem relies on them, their documented behaviour is a hypothesis. Maps of Go
-- are association lists or lists of keys; a slice that is only read is a list; times are seconds, and an
-- absent or zero time is none (0 in the token cache). Loops over slices are structural recursion, and the
-- retry of the client is a recursion on the two rounds that it has, so no fuel is needed. Texts
-- built by fmt.Sprintf are parameters where nothing depends on them and appended texts where names are
-- made. Log lines are left out.
--
-- Not modelled: the WeftServer controller, the node prober, the rest of the AquaductTaaS and
-- reflector controllers, the trust bundle's construction, the node agent's pass, the webhook's HTTP side,
-- certificates, and the wiring in cmd.
pub mod Prelude
pub mod HostsFile
pub mod Resource
pub mod Trust
mod Tests
pub mod Kube
pub mod DnsRecord
pub mod Reflector
pub mod WeftTunnel
pub mod AquaductTaas
pub mod Gateway
pub mod ApiClient
