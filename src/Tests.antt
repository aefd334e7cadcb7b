-- ===== src/Tests.antt =====
-- Runs of the definitions on small inputs, and the theorems at inputs that meet their hypotheses.
mod HostsFileRuns
mod ResourceRuns
mod TrustRuns
mod DnsRecordRuns
mod ReflectorRuns
mod ClusterDnsRuns
mod SmallCluster
mod WeftTunnelRuns
mod AquaductRuns
mod SmallStore
mod SmallEdge
mod GatewayRuns
mod ApiClientRuns
mod RoutesRuns
