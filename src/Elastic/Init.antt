-- ===== src/Elastic/Init.antt =====
-- elasticsearch.go: Init. The making of a client and of a bulk indexer are parameters.
use demedia_nostr.Prelude.{
  Bool-cases, inl, inr, refl, String, Bool, not, ◌&&◌, true, false, ◌==◌, ◌≡◌, arith, Option, none,
  some, if◌then◌else◌,
}
use demedia_nostr.Prelude.Text.{◌<>◌}
use demedia_nostr.Prelude.Splits.{contains}
use demedia_nostr.Nostr.{Error, message, error_text, Result, ok, err}
use demedia_nostr.Elastic.Dsl.{is_none}
use demedia_nostr.Elastic.Client.{Response, refused, body}

-- The configuration: the cloud's id and the key, if the variable ES_URL is set.
pub record Config : Type 0 where
  pub cloud_id : String
  pub api_key : String

pub record Library (Env : Type 0) : Type 1 where
  pub Client : Type 0
  pub Indexer : Type 0
  pub getenv : String → String
  pub new_client : Config → Env → Result Client × Env
  -- es.Indices.Create of an index, with the mapping as the body: its error, or the answer
  pub create_index : Client → String → Env → Result (Response (Unit {0})) × Env
  -- of an index and a client, with two workers, flushed every three seconds
  pub new_indexer : String → Client → Env → Result Indexer × Env

module _ {Env : Type 0} (lib : Library Env) where
  -- ElasticsearchStorage, less the map of peers.
  pub record ElasticsearchStorage : Type 0 where
    pub index_name : String
    pub es : Option lib.Client
    pub bi : Option lib.Indexer

  abbrev pub config : Config
  config =
      if lib.getenv "ES_URL" == ""
      then record { cloud_id = ""; api_key = "" }
      else record { cloud_id = lib.getenv "ES_CLOUD_ID"; api_key = lib.getenv "ES_API_KEY" }

  abbrev pub named : ElasticsearchStorage → ElasticsearchStorage
  named s = if s.index_name == "" then record s { index_name = "events" } else s

  abbrev pub with_indexer :
      ElasticsearchStorage
      → lib.Client
      → Result lib.Indexer × Env
      → (Option Error × ElasticsearchStorage) × Env
  with_indexer s es (err e, w) =
      ((some (message ("error creating the indexer: " <> error_text e)), s), w)
  with_indexer s es (ok bi, w) = ((none, record s { es = some es; bi = some bi }), w)

  -- What is wrong with the answer; an index that is there already is fine.
  abbrev pub creation_error : Result (Response (Unit {0})) → Option Error
  creation_error (err e) = some e
  creation_error (ok (body r)) = none
  creation_error (ok (refused txt)) =
      if contains txt "resource_already_exists_exception" then none else some (message txt)

  abbrev pub unless_failed :
      ElasticsearchStorage
      → lib.Client
      → Option Error
      → Env
      → (Option Error × ElasticsearchStorage) × Env
  unless_failed s es (some e) w = ((some e, s), w)
  unless_failed s es none w = with_indexer s es (lib.new_indexer s.index_name es w)

  abbrev pub with_client :
      ElasticsearchStorage → Result lib.Client × Env → (Option Error × ElasticsearchStorage) × Env
  with_client s (err e, w) = ((some e, s), w)
  with_client s (ok es, w) =
      let r = lib.create_index es s.index_name w in unless_failed s es (creation_error r.0) r.1

  unfoldable pub init : ElasticsearchStorage → Env → (Option Error × ElasticsearchStorage) × Env
  init s w = with_client (named s) (lib.new_client config w)

  -- The storage has a name, a client and an indexer.
  abbrev pub is_ready : ElasticsearchStorage → Bool
  is_ready s = not (s.index_name == "") && (not (is_none s.es) && not (is_none s.bi))

  -- A storage as the program makes it.
  abbrev pub fresh : String → ElasticsearchStorage
  fresh index_name = record { index_name = index_name; es = none; bi = none }

  abbrev is_done : (Option Error × ElasticsearchStorage) × Env → Bool
  is_done r = is_none r.0.0

  ready_indexer :
      (s : ElasticsearchStorage) (es : lib.Client) (r : Result lib.Indexer × Env)
      → (s.index_name == "") ≡ false
      → is_none s.es ≡ true
      → is_ready (with_indexer s es r).0.1 ≡ is_done (with_indexer s es r)
  ready_indexer s es (err e, w) h n = ground (arith, h, n)
  ready_indexer s es (ok bi, w) h n = ground (arith, h)

  ready_created :
      (s : ElasticsearchStorage) (es : lib.Client) (e : Option Error) (w : Env)
      → (s.index_name == "") ≡ false
      → is_none s.es ≡ true
      → is_ready (unless_failed s es e w).0.1 ≡ is_done (unless_failed s es e w)
  ready_created s es (some e) w h n = ground (arith, h, n)
  ready_created s es none w h n = ready_indexer s es (lib.new_indexer s.index_name es w) h n

  ready_client :
      (s : ElasticsearchStorage) (r : Result lib.Client × Env)
      → (s.index_name == "") ≡ false
      → is_none s.es ≡ true
      → is_ready (with_client s r).0.1 ≡ is_done (with_client s r)
  ready_client s (err e, w) h n = ground (arith, h, n)
  ready_client s (ok es, w) h n =
      let r = lib.create_index es s.index_name w in ready_created s es (creation_error r.0) r.1 h n

  named_fresh : (index_name : String) → ((named (fresh index_name)).index_name == "") ≡ false
  named_fresh index_name = elim (Bool-cases (index_name == "")) [
    | inl b ↦ rw b refl
    | inr b ↦ rw b b
  ]

  es-named_fresh : (index_name : String) → is_none (named (fresh index_name)).es ≡ true
  es-named_fresh index_name = elim (Bool-cases (index_name == "")) [
    | inl b ↦ rw b refl
    | inr b ↦ rw b refl
  ]

  -- After Init of a storage that the program makes, whatever its name is, the storage has a name, a
  -- client and a bulk indexer exactly if Init returns no error.
  pub is_ready-init :
      (index_name : String) (w : Env)
      → is_ready (init (fresh index_name) w).0.1 ≡ is_none (init (fresh index_name) w).0.0
  unfolding init
  is_ready-init index_name w =
      ready_client (named (fresh index_name)) (lib.new_client config w) (named_fresh index_name)
        (es-named_fresh index_name)
