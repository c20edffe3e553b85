-- ===== src/Bgp.antt =====
-- microovn/bgp: the redirect of BGP traffic to a routing daemon on the host (redirect.go), and the service
-- that sets it up and takes it down (service.go).
pub mod BirdConfig
pub mod Asn
pub mod Vrf
pub mod Names
pub mod Networks
pub mod Teardown
pub mod Service
pub mod Frame
pub mod Failure
pub mod Mapping
pub mod Deletions
pub mod OwnSwitches
pub mod Switches
