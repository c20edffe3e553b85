-- ===== src/Cli.antt =====
-- microovn/cmd/microovn: the commands of the client.
pub mod Status
pub mod Init
pub mod CertificatesList
pub mod Certificates
pub mod ClusterCommands
pub mod ConfigCommands
pub mod CertificatesReport
pub mod StatusReport
pub mod Printing
pub mod ServiceControl
