-- ===== src/Paste.antt =====
-- data_sharing/clipboard: what is pasted on Windows while its bytes still arrive.
pub mod Transfer
pub mod Stream
pub mod Image
pub mod Formats
pub mod DataObject
pub mod FileDrop
