-- ===== src/Postgres/Query/Saved.antt =====
-- save.go and query.go: what SaveEvent has put into the table is what QueryEvents finds by its author and
-- its id.
use Prim.Native.String.{len}
use demedia_nostr.Prelude.{
  ℕ, String, true, false, ◌==◌, ◌&&◌, eq_iff, Option, none, some, List, [], ◌∷◌, map, take, any,
  All, pos, ◌≡◌, refl, arith,
}
use demedia_nostr.Prelude.Hex.{Bytes, hex_encode, hex_decode}
use demedia_nostr.Nostr.{Event, Filter, Nostr, ok}
use demedia_nostr.Postgres.Table.{
  PostgresBackend, Db, exec, insert_new, delete_past, save_event, saved,
}
use demedia_nostr.Postgres.Save.{insert_none}
use demedia_nostr.Postgres.Select.{select, select-append}
use demedia_nostr.Postgres.Backend.{Platform, storage}
use demedia_nostr.Postgres.Query.Text.{limit_param}
use demedia_nostr.Postgres.Query.Conditions.{Condition, conditions, printed}
use demedia_nostr.Postgres.Query.Conditions.Meaning.{names, all_hold, is_selected_by, IsSmall}
use demedia_nostr.Postgres.Query.Conditions.Answers.{query_events-is_selected_by}

-- A filter for one author and one id, without a limit.
abbrev pub by_id : String → String → Filter
by_id pub_key id = record {
  ids = some (id ∷ []);
  kinds = none;
  authors = some (pub_key ∷ []);
  tags = [];
  since = none;
  until = none;
  limit = pos 0;
}

by_id-IsSmall : (pub_key id : String) → IsSmall (by_id pub_key id)
by_id-IsSmall pub_key id = record {
  ids = omega arith;
  authors = omega arith;
  kinds = tt;
  tags = omega arith;
}

-- A text that names itself names no other.
pub names_itself : (o : Option Bytes) (id s : String) → names o id ≡ true → names o s ≡ (s == id)
names_itself none id s h = absurd (ground (arith, h))
names_itself (some bs) id s h =
    ground (arith, h, eq_iff (hex_encode bs) id, eq_iff (hex_encode bs) s, eq_iff s id)

is_selected_by-by_id :
    (pub_key id : String) (e : Event)
    → names (hex_decode pub_key) pub_key ≡ true
    → names (hex_decode id) id ≡ true
    → is_selected_by (by_id pub_key id) e ≡ (e.id == id && e.pub_key == pub_key)
unfolding is_selected_by
is_selected_by-by_id pub_key id e k h = ground (
  arith,
  names_itself (hex_decode id) id e.id h,
  names_itself (hex_decode pub_key) pub_key e.pub_key k,
)

select-by_id :
    (pub_key id : String) (rows : List Event)
    → names (hex_decode pub_key) pub_key ≡ true
    → names (hex_decode id) id ≡ true
    → any (λ r. r.id == id) rows ≡ false
    → select (is_selected_by (by_id pub_key id)) rows ≡ []
unfolding select
select-by_id pub_key id [] k h n = refl
select-by_id pub_key id (r ∷ rows) k h n = ground (
  arith,
  is_selected_by-by_id pub_key id r k h,
  select-by_id pub_key id rows k h (ground (arith, n)),
)

select_one :
    (evt : Event)
    → names (hex_decode evt.pub_key) evt.pub_key ≡ true
    → names (hex_decode evt.id) evt.id ≡ true
    → select (is_selected_by (by_id evt.pub_key evt.id)) (evt ∷ []) ≡ evt ∷ []
unfolding select
select_one evt k h = ground (
  arith,
  is_selected_by-by_id evt.pub_key evt.id evt k h,
  eq_iff evt.id evt.id,
  eq_iff evt.pub_key evt.pub_key,
)

insert_none_new :
    (evt : Event) (db : Db)
    → saved (exec (insert_new evt) db).0 ≡ none
    → any (λ r. r.id == evt.id) db.rows ≡ false
unfolding exec insert_new
insert_none_new evt db h = ground arith

select-save_event :
    (n : Nostr) (evt : Event) (b : PostgresBackend)
    → (save_event n evt b).0 ≡ none
    → names (hex_decode evt.pub_key) evt.pub_key ≡ true
    → names (hex_decode evt.id) evt.id ≡ true
    → select (is_selected_by (by_id evt.pub_key evt.id)) (save_event n evt b).1.db.rows ≡ evt ∷ []
unfolding save_event
select-save_event n evt b h g k =
    let before : List Event = (delete_past n evt b.db).rows in
    rw
      (
        insert_none evt (delete_past n evt b.db) h,
        select-append (is_selected_by (by_id evt.pub_key evt.id)) before (evt ∷ []),
      )
      (rw
        (select-by_id evt.pub_key evt.id before g k
          (insert_none_new evt (delete_past n evt b.db) h))
        (select_one evt g k))

module _ (n : Nostr) (p : Platform) (sort : List Event → List Event) where
  -- If SaveEvent returns no error and the database runs the statement of the query by the meaning
  -- of SQL on what the table then holds, a query for the public key and the ID of the event finds the
  -- event and nothing else. The two are 64 hexadecimal digits in lower case, the IDs and public keys of the
  -- table have 64 characters, and the database's order leaves one row as it is.
  pub query_events-save_event :
      (evt : Event) (b : PostgresBackend)
      → (save_event n evt b).0 ≡ none
      → names (hex_decode evt.pub_key) evt.pub_key ≡ true
      → names (hex_decode evt.id) evt.id ≡ true
      → All (λ r. (len r.id ≡ 64) × (len r.pub_key ≡ 64)) (save_event n evt b).1.db.rows
      → sort [] ≡ []
      → sort (evt ∷ []) ≡ evt ∷ []
      → ((cs : List Condition) (m : ℕ)
          → conditions (by_id evt.pub_key evt.id) ≡ some cs
          → limit_param (pos 0) ≡ pos m
          → p.query
              (save_event n evt b).1.db.rows
              (p.rebind (printed (pos 0) cs).0)
              (printed (pos 0) cs).1
            ≡ ok (map ok (take m (sort (select (all_hold cs) (save_event n evt b).1.db.rows)))))
      → (storage n p).query_events (by_id evt.pub_key evt.id) (save_event n evt b).1
        ≡ (ok (evt ∷ []), (save_event n evt b).1)
  unfolding storage
  query_events-save_event evt b h g k full empty one runs =
      let rows = (save_event n evt b).1.db.rows in
      rw
        (
          query_events-is_selected_by p.rebind p.quote (p.query rows) sort rows
              (by_id evt.pub_key evt.id) (by_id-IsSmall evt.pub_key evt.id) full empty runs,
          select-save_event n evt b h g k,
          one,
        )
        refl
