-- ===== src/Store.antt =====
-- The stores of audio files: blob/blob.go and ipfs/ipfs.go.
pub mod Blob
pub mod Ipfs
pub mod Rehosting
