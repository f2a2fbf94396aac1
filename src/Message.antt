-- ===== src/Message.antt =====
-- common/global_def.h and common/global_def.cpp: the messages between the client and the pipe
-- server, and their wire format.
pub mod Qt
pub mod Frame
pub mod Serialise
pub mod Parse
pub mod Content
pub mod Fields
pub mod Body
pub mod ClientStatus
pub mod File
pub mod FileRequest
pub mod FileResponse
pub mod Progress
pub mod ConnRequest
pub mod ConnResponse
