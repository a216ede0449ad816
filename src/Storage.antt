-- ===== src/Storage.antt =====
-- relayer/interface.go: what the server asks of a storage and of a relay. `Env` is the state of
-- whatever stands behind them.
use demedia_nostr.Prelude.{ℕ, String, Bool, Option, List}
use demedia_nostr.Nostr.{Event, Filter, Error, Result}

-- Storage; Init is called once, before the server serves, and is not among the operations. A Go
-- function that returns only an error returns an option here.
pub record Storage (Env : Type 0) : Type 0 where
  pub query_events : Filter → Env → Result (List Event) × Env
  pub delete_event : String → String → Env → Option Error × Env
  pub save_event : Event → Env → Option Error × Env
  pub save_peer : String → String → Env → Env
  pub get_peer : String → Env → String × Env

-- AdvancedQuerier. The filter is passed by a pointer, so both methods may change it; the second may
-- change the events in place too.
pub record AdvancedQuerier (Env : Type 0) : Type 0 where
  pub before_query : Filter → Env → Filter × Env
  pub after_query : List Event → Filter → Env → (List Event × Filter) × Env

-- AdvancedDeleter
pub record AdvancedDeleter (Env : Type 0) : Type 0 where
  pub before_delete : String → String → Env → Env
  pub after_delete : String → String → Env → Env

-- AdvancedSaver. The event is passed by a pointer.
pub record AdvancedSaver (Env : Type 0) : Type 0 where
  pub before_save : Event → Env → Event × Env
  pub after_save : Event → Env → Event × Env

-- Relay, with the storage it returns and the optional interfaces that the two of them implement:
-- an option is a type assertion.
pub record Relay (Env : Type 0) : Type 0 where
  pub storage : Storage Env
  pub accept_event : Event → Bool
  pub advanced_querier : Option (AdvancedQuerier Env)
  pub advanced_deleter : Option (AdvancedDeleter Env)
  pub advanced_saver : Option (AdvancedSaver Env)
  -- Auther, by its ServiceURL
  pub auther : Option String
  -- CustomWebSocketHandler, on the connection, the type and the request
  pub custom_handler : Option (ℕ → String → List String → Env → Env)
