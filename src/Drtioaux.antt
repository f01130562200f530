-- ===== src/Drtioaux.antt =====
-- libboard_artiq: the packets of the auxiliary DRTIO channel and the link that carries them.
pub mod Packet
pub mod Payload
pub mod Read
pub mod Write
pub mod Valid
pub mod RoundTrip
pub mod Link
pub mod RoutingTable
