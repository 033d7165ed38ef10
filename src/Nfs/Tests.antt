-- ===== src/Nfs/Tests.antt =====
-- The claims about dpfs_nfs at concrete states and bytes.
pub mod WireTests
pub mod SessionTests
pub mod FlightTests
pub mod OpensTests
pub mod ConnectTests
