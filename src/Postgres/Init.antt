-- ===== src/Postgres/Init.antt =====
-- init.go: Init of a PostgresBackend. The opening of a database, its settings and the execution of
-- a statement are parameters.
use demedia_nostr.Prelude.{ℕ, String, Option, some, ◌≡◌, refl}
use demedia_nostr.Prelude.Text.{◌<>◌}
use demedia_nostr.Nostr.{Error, Result, ok, err}

-- What makes the function tags_to_tagvalues, the table and its indexes.
abbrev pub create_statement : String
create_statement =
    "\nCREATE OR REPLACE FUNCTION tags_to_tagvalues(jsonb) RETURNS text[]\n    AS 'SELECT array_agg(t->>1) FROM (SELECT jsonb_array_elements($1) AS t)s WHERE length(t->>0) = 1;'\n    LANGUAGE SQL\n    IMMUTABLE\n    RETURNS NULL ON NULL INPUT;\n\nCREATE TABLE IF NOT EXISTS event (\n  id text NOT NULL,\n  pubkey text NOT NULL,\n  created_at integer NOT NULL,\n  kind integer NOT NULL,\n  tags jsonb NOT NULL,\n  content text NOT NULL,\n  sig text NOT NULL,\n\n  tagvalues text[] GENERATED ALWAYS AS (tags_to_tagvalues(tags)) STORED\n);\n\nCREATE UNIQUE INDEX IF NOT EXISTS ididx ON event USING btree (id text_pattern_ops);\nCREATE INDEX IF NOT EXISTS pubkeyprefix ON event USING btree (pubkey text_pattern_ops);\nCREATE INDEX IF NOT EXISTS timeidx ON event (created_at DESC);\nCREATE INDEX IF NOT EXISTS kindidx ON event (kind);\nCREATE INDEX IF NOT EXISTS arbitrarytagvalues ON event USING gin (tagvalues);\n    "

module _ {Env Db : Type 0} (open_db : String → String → Env → Result Db × Env)
    (set_max_open_conns : ℕ → Db → Db) (map_names_by : String → Db → Db)
    (exec : Db → String → Env → Option Error × Env) where
  -- A PostgresBackend, less its map.
  pub record Connection : Type 0 where
    pub db : Option Db
    pub database_url : String
    pub service_name : String

  abbrev pub with_db : Connection → Result Db × Env → (Option Error × Connection) × Env
  with_db b (err e, w) = ((some e, b), w)
  with_db b (ok db, w) =
      let opened : Db = map_names_by "json" (set_max_open_conns 80 db) in
      let created = exec opened create_statement w in
      ((created.0, record b { db = some opened }), created.1)

  unfoldable pub init : Connection → Env → (Option Error × Connection) × Env
  init b w = with_db b (open_db b.database_url (b.service_name <> "db") w)

  -- If the database is opened, then it is the one of the backend, whether or not the statement that
  -- makes the table fails; the error of Init is that of the statement.
  init_opened :
      (b : Connection) (w v : Env) (db : Db)
      → open_db b.database_url (b.service_name <> "db") w ≡ (ok db, v)
      → ((init b w).0.1.db ≡ some (map_names_by "json" (set_max_open_conns 80 db)))
        × ((init b w).0.0
            ≡ (exec (map_names_by "json" (set_max_open_conns 80 db)) create_statement v).0)
  unfolding init
  init_opened b w v db e = rw e (refl, refl)
