-- ===== src/Postgres.antt =====
-- relayer/storage/postgresql: the event table and the map of peers. The proofs are below.
pub mod Table
pub mod Select
pub mod Save
pub mod Owners
pub mod Recent
pub mod Query
pub mod Init
pub mod Peers
pub mod Backend
pub use Table.{Fault, fine, exec_fails, count_fails, Db, PeerInfo, PostgresBackend}
unfoldable pub use Table.{
  exec, is_replaceable, has_id, has_kind, has_content, delete_where, insert_new, delete_event,
  save_event, before_save, after_save,
}
