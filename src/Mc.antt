-- ===== src/Mc.antt =====
-- Package mc: the wire format of the Minecraft protocol.
pub mod Reader
pub mod VarInt
pub mod Field
pub mod Packet
pub mod Handshake
pub mod Login
pub mod RealIp
