-- ===== src/Listener.antt =====
-- relayer/listener.go: the subscriptions of all connections, in one global map.
-- Each operation holds the mutex from its first to its last line, so it is one step here.
mod Defs
pub mod Refinement
pub mod Validity
pub mod Delivery
pub mod Distinct
pub mod Orders
pub use Defs.{Listener}
unfoldable pub use Defs.{
  Listeners, set_listener, drop_if_empty, remove_listener_id, remove_listener, notify_subs,
  notify_listeners, add_filter, add_filters, listener_filters, get_listening_filters,
}
