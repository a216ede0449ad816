-- ===== src/Elastic/Client.antt =====
-- elasticsearch.go and query.go: the types, and what the program calls of the client of
-- Elasticsearch and of encoding/json, which are the fields of a record. `Env` is the state of what
-- stands behind them.
use demedia_nostr.Prelude.{ℕ, String, Bool, Option, List}
use demedia_nostr.Nostr.{Event, Filter, Error, Result}
use demedia_nostr.Elastic.Dsl.{Dsl}

pub record IndexedEvent : Type 0 where
  pub event : Event
  pub content_search : String

-- One of mgetResponse.Docs.
pub record Doc : Type 0 where
  pub found : Bool
  pub source : IndexedEvent

-- An answer of the service: its text where res.IsError(), or its decoded body.
pub data Response (A : Type 0) : Type 0 where
  refused : String → Response A
  body : Result A → Response A

-- esutil.BulkIndexerItem: the action and the document's id.
pub data Item : Type 0 where
  index : String → String → Item
  delete : String → Item

-- esutil.BulkIndexerResponseItem, with what json.Marshal makes of it.
pub record BulkResponse : Type 0 where
  pub status : ℕ
  pub error_type : String
  pub error_reason : String
  pub json : String

-- Which callback of an item the indexer calls: OnSuccess, OnFailure with an error or without one,
-- or none ever.
pub data Answer : Type 0 where
  success : Answer
  failure : Error → Answer
  rejected : BulkResponse → Answer
  silent : Answer

pub record Client (Env : Type 0) : Type 0 where
  pub marshal_query : Dsl → Result String
  pub marshal_indexed : IndexedEvent → Result String
  -- es.Mget in an index, with a filter as the body: its error, or the decoded answer
  pub mget : String → Filter → Env → Result (Result (List Doc)) × Env
  -- es.Search in an index, with the body, the size and the sort
  pub search : String → String → ℕ → String → Env → Result (Response (List IndexedEvent)) × Env
  -- es.Count in an index, with the body
  pub count : String → String → Env → Result (Response ℕ) × Env
  -- bi.Add, and what becomes of an item that was added
  pub add : Item → Env → Option Error × Env
  pub settle : Item → Env → Answer × Env

-- How a call ends: it returns, it waits for ever, or log.Fatalf ends the process.
pub data Run (A : Type 0) : Type 0 where
  returns : A → Run A
  blocks : Run A
  exits : Run A

abbrev pub Act : Type 0 → Type 0 → Type 0
Act Env A = Env → Run A × Env

abbrev pub continue : {Env A B : Type 0} → (A → Act Env B) → Run A × Env → Run B × Env
continue f (returns a, w) = f a w
continue f (blocks, w) = (blocks, w)
continue f (exits, w) = (exits, w)

infixl 5 ◌>>=◌ ◌>>◌
abbrev pub ◌>>=◌ : {Env A B : Type 0} → Act Env A → (A → Act Env B) → Act Env B
◌>>=◌ m f w = continue f (m w)

abbrev pub ◌>>◌ : {Env A B : Type 0} → Act Env A → Act Env B → Act Env B
m >> k = m >>= λ _. k

abbrev pub pure : {Env A : Type 0} → A → Act Env A
pure a w = (returns a, w)

-- A step that does return.
abbrev pub lift_done : {Env A : Type 0} → A × Env → Run A × Env
lift_done (a, w) = (returns a, w)

abbrev pub lift : {Env A : Type 0} → (Env → A × Env) → Act Env A
lift f w = lift_done (f w)
