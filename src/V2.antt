-- ===== src/V2.antt =====
-- Package ultravioletv2, the folder src/ of the repository: the experimental second version.
pub mod Source
pub mod Writer
pub mod VarInt
pub mod Packet
pub mod Config
pub mod Raknet
pub mod Server
