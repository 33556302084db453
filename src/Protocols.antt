-- ===== src/Protocols.antt =====
-- src/protocols: the packet format and its checksum.
pub mod Crc
pub mod Packet
