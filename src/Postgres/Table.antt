-- ===== src/Postgres/Table.antt =====
-- save.go and delete.go. A statement of SQL in the source is the function on the rows that it
-- denotes; the database may fail at any statement, and `faults` says at which.
use demedia_nostr.Prelude.{
  ℕ, zero, suc, String, Bool, false, ◌&&◌, ◌||◌, Option, none, some, List, [], ◌∷◌, ◌++◌, ◌==◌, any,
  get_elem?, ℤ, pos, int_leb, int_ltb, int_beq, if◌then◌else◌,
}
use demedia_nostr.Prelude.Map.{Map}
use demedia_nostr.Nostr.{Event, Nostr, Error, dup_event, Result, ok, err}

-- What happens to one statement: Exec fails and nothing is done, or the statement is done and
-- RowsAffected fails.
pub data Fault : Type 0 where
  fine : Fault
  exec_fails : Error → Fault
  count_fails : Error → Fault

pub record Db : Type 0 where
  pub rows : List Event
  pub faults : List Fault

abbrev pub fault_of : List Fault → Fault
fault_of [] = fine
fault_of (f ∷ fs) = f

abbrev pub later : List Fault → List Fault
later [] = []
later (f ∷ fs) = fs

-- The rows before a statement, and its rows and number of rows; the faults to come.
abbrev pub finish : Fault → List Event → List Event × ℕ → List Fault → Result (Result ℕ) × Db
finish fine rows (rows', n) fs = (ok (ok n), record { rows = rows'; faults = fs })
finish (exec_fails e) rows (rows', n) fs = (err e, record { rows = rows; faults = fs })
finish (count_fails e) rows (rows', n) fs = (ok (err e), record { rows = rows'; faults = fs })

-- DB.Exec: the error of the call, or the answer of RowsAffected.
unfoldable pub exec : (List Event → List Event × ℕ) → Db → Result (Result ℕ) × Db
exec statement db = finish (fault_of db.faults) db.rows (statement db.rows) (later db.faults)

pub record PeerInfo : Type 0 where
  pub address : String
  pub last_update : ℕ

pub record PostgresBackend : Type 0 where
  pub db : Db
  pub peers : Map String PeerInfo

-- DELETE FROM event WHERE test
unfoldable pub delete_where : (Event → Bool) → List Event → List Event × ℕ
delete_where test [] = ([], 0)
delete_where test (r ∷ rows) =
    let (kept, n) = delete_where test rows in if test r then (kept, suc n) else (r ∷ kept, n)

-- INSERT INTO event VALUES (…) ON CONFLICT (id) DO NOTHING
unfoldable pub insert_new : Event → List Event → List Event × ℕ
insert_new evt rows = if any (λ r. r.id == evt.id) rows then (rows, 0) else (rows ++ (evt ∷ []), 1)

-- id = $1 AND pubkey = $2
abbrev pub has_id : String → String → Event → Bool
has_id id pubkey r = r.id == id && r.pub_key == pubkey

-- pubkey = $1 AND kind = $2
abbrev pub has_kind : Event → Event → Bool
has_kind evt r = r.pub_key == evt.pub_key && int_beq r.kind evt.kind

-- pubkey = $1 AND kind = $2 AND content = $3
abbrev pub has_content : Event → Event → Bool
has_content evt r = has_kind evt r && r.content == evt.content

abbrev pub exec_error : Result (Result ℕ) → Option Error
exec_error (ok _) = none
exec_error (err e) = some e

unfoldable pub delete_event : String → String → PostgresBackend → Option Error × PostgresBackend
delete_event id pubkey b =
    let (res, db') = exec (delete_where (has_id id pubkey)) b.db in
    (exec_error res, record b { db = db' })

-- What SaveEvent makes of the insertion's answer.
abbrev pub saved : Result (Result ℕ) → Option Error
saved (err e) = some e
saved (ok (err e)) = some e
saved (ok (ok zero)) = some dup_event
saved (ok (ok (suc k))) = none

module _ (n : Nostr) where
  abbrev pub is_replaceable : ℤ → Bool
  is_replaceable kind =
      int_beq kind n.kind_set_metadata
      || int_beq kind n.kind_contact_list
      || (int_leb (pos 10000) kind && int_ltb kind (pos 20000))

  -- The deletions before the insertion; their errors are dropped.
  unfoldable pub delete_past : Event → Db → Db
  delete_past evt db =
      if is_replaceable evt.kind
      then (exec (delete_where (has_kind evt)) db).1
      else if int_beq evt.kind n.kind_recommend_server
      then (exec (delete_where (has_content evt)) db).1
      else db

  unfoldable pub save_event : Event → PostgresBackend → Option Error × PostgresBackend
  unfolding delete_past
  save_event evt b =
      let (res, db') = exec (insert_new evt) (delete_past evt b.db) in
      (saved res, record b { db = db' })

unfoldable pub before_save : Event → PostgresBackend → Event × PostgresBackend
before_save evt b = (evt, b)

-- SELECT created_at FROM event WHERE pubkey = $1 ORDER BY created_at DESC
unfoldable pub insert_desc : ℤ → List ℤ → List ℤ
insert_desc t [] = t ∷ []
insert_desc t (u ∷ us) = if int_leb u t then t ∷ u ∷ us else u ∷ insert_desc t us

unfoldable pub times_desc : String → List Event → List ℤ
times_desc pubkey [] = []
times_desc pubkey (r ∷ rows) =
    let rest = times_desc pubkey rows in
    if r.pub_key == pubkey then insert_desc r.created_at rest else rest

-- created_at < (SELECT … OFFSET 100 LIMIT 1); a comparison with no row is not true.
abbrev pub is_before : Option ℤ → ℤ → Bool
is_before none t = false
is_before (some u) t = int_ltb t u

unfoldable pub after_save : Event → PostgresBackend → Event × PostgresBackend
unfolding times_desc insert_desc
after_save evt b =
    let bound = get_elem? (times_desc evt.pub_key b.db.rows) 100 in
    let (_, db') = exec (delete_where (λ r. has_kind evt r && is_before bound r.created_at)) b.db in
    (evt, record b { db = db' })
