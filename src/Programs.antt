-- ===== src/Programs.antt =====
-- hub/main.go and peer/main.go: the methods of the two relays, which are the same but for a name,
-- and the hourly deletion of their Init.
pub mod Exiting
pub mod Tracing
pub mod Addresses
pub mod HubMain
pub mod PeerMain
use demedia_nostr.Prelude.{ℕ, String, Bool, not, ◌==◌, ltb, ◌≡◌, ℤ, int_ltb, [], if◌then◌else◌}
use Prim.Native.String.{len}
use demedia_nostr.Nostr.{Event, Result, ok, err}
use demedia_nostr.Postgres.Select.{select, delete_where-select}
use demedia_nostr.Postgres.Table.{Db, exec, delete_where}

unfoldable pub name_or : String → String → String
name_or default service_name = if service_name == "" then default else service_name

-- len(jsonb), which is nil where json.Marshal fails
abbrev pub bytes : Result String → ℕ
bytes (err e) = 0
bytes (ok s) = len s

unfoldable pub accept_event : (Event → Result String) → Event → Bool
accept_event marshal_event evt = not (ltb 10000 (bytes (marshal_event evt)))

-- created_at < $1
abbrev pub is_before : ℤ → Event → Bool
is_before bound r = int_ltb r.created_at bound

-- One round of the loop; `bound` is the time three months ago, and the answer is dropped.
unfoldable pub delete_old : ℤ → Db → Db
unfolding exec delete_where
delete_old bound db = (exec (delete_where (is_before bound)) db).1

-- An hourly deletion that the database carries out leaves exactly the events since the time.
pub rows-delete_old :
    (bound : ℤ) (db : Db)
    → db.faults ≡ []
    → (delete_old bound db).rows ≡ select (λ r. not (is_before bound r)) db.rows
unfolding delete_old exec
rows-delete_old bound db h = rw h (delete_where-select (is_before bound) db.rows)
