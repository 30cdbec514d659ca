-- ===== src/Rpc.antt =====
-- rpc/protobuf_rpc.py: class ProtobufRPC.
pub mod Varint
pub mod Frame
pub mod Session
pub mod Call
pub mod System
pub mod Storage
pub mod Listing
pub mod ReadOnly
pub mod Write
