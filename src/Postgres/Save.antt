-- ===== src/Postgres/Save.antt =====
-- What SaveEvent and DeleteEvent return and leave in the table.
use demedia_nostr.Prelude.{
  ℕ, ◌≡◌, refl, ap, String, ◌==◌, eq_iff, Bool, true, false, not, none, some, List, [], ◌∷◌, ◌++◌,
  arith, any, if◌then◌else◌, int_beq, int_beq_iff,
}
use demedia_nostr.Nostr.{Event, Nostr, dup_event, ok}
use demedia_nostr.Postgres.Table.{
  fine, Db, PostgresBackend, fault_of, later, exec, delete_where, insert_new, has_id, has_kind,
  has_content, delete_event, is_replaceable, delete_past, save_event, saved,
}
use demedia_nostr.Postgres.Select.{select, select-append, delete_where-select}

-- The stored events that an event replaces: all of its author's of a replaceable kind, and of
-- a recommended server those with the same content.
unfoldable pub superseded : Nostr → Event → Event → Bool
superseded n evt r =
    if is_replaceable n evt.kind
    then has_kind evt r
    else if int_beq evt.kind n.kind_recommend_server
    then has_content evt r
    else false

unfoldable pub survivors : Nostr → Event → List Event → List Event
survivors n evt = select (λ r. not (superseded n evt r))

select-true : (rows : List Event) → select (λ r. true) rows ≡ rows
unfolding select
select-true [] = refl
select-true (r ∷ rows) = rw (select-true rows)

exec_fine :
    (statement : List Event → List Event × ℕ) (db : Db)
    → fault_of db.faults ≡ fine
    → exec statement db ≡ (
      ok (ok (statement db.rows).1),
      record { rows = (statement db.rows).0; faults = later db.faults },
    )
unfolding exec
exec_fine statement db e = rw e

delete_past-survivors :
    (n : Nostr) (evt : Event) (db : Db)
    → fault_of db.faults ≡ fine
    → (delete_past n evt db).rows ≡ survivors n evt db.rows
unfolding delete_past survivors superseded
delete_past-survivors n evt db e =
    go (is_replaceable n evt.kind) (int_beq evt.kind n.kind_recommend_server)
  where
    go :
        (x y : Bool)
        → (if x
            then (exec (delete_where (has_kind evt)) db).1
            else if y
            then (exec (delete_where (has_content evt)) db).1
            else db).rows
          ≡ select
              (λ r. not (if x then has_kind evt r else if y then has_content evt r else false))
              db.rows
    go true y = rw (exec_fine (delete_where (has_kind evt)) db e) (delete_where-select _ db.rows)
    go false true =
        rw (exec_fine (delete_where (has_content evt)) db e) (delete_where-select _ db.rows)
    go false false = rw select-true refl

faults-delete_past :
    (n : Nostr) (evt : Event) (db : Db) → db.faults ≡ [] → (delete_past n evt db).faults ≡ []
unfolding delete_past exec
faults-delete_past n evt db e = ground (arith, e)

pub insert_none :
    (evt : Event) (db : Db)
    → saved (exec (insert_new evt) db).0 ≡ none
    → (exec (insert_new evt) db).1.rows ≡ db.rows ++ (evt ∷ [])
unfolding exec insert_new
insert_none evt db h = ground arith

-- If SaveEvent returns no error, and the deletion before the insertion did not fail, then the
-- table holds what was there, in its order, less what the event replaces, and the event last.
pub save_event-rows :
    (n : Nostr) (evt : Event) (b : PostgresBackend)
    → fault_of b.db.faults ≡ fine
    → (save_event n evt b).0 ≡ none
    → (save_event n evt b).1.db.rows ≡ survivors n evt b.db.rows ++ (evt ∷ [])
unfolding save_event
save_event-rows n evt b e h =
    rw (← delete_past-survivors n evt b.db e) (insert_none evt (delete_past n evt b.db) h)

select-none :
    (test : Event → Bool) (rows : List Event) → select test (select (λ r. not (test r)) rows) ≡ []
unfolding select
select-none test [] = refl
select-none test (r ∷ rows) = ground (arith, select-none test rows)

-- After a replaceable event is saved with no error and no failed deletion, it is the only event
-- of its author and kind in the table.
pub save_event_unique :
    (n : Nostr) (evt : Event) (b : PostgresBackend)
    → is_replaceable n evt.kind ≡ true
    → fault_of b.db.faults ≡ fine
    → (save_event n evt b).0 ≡ none
    → select (has_kind evt) (save_event n evt b).1.db.rows ≡ evt ∷ []
unfolding select survivors superseded
save_event_unique n evt b r e h = rw (save_event-rows n evt b e h) (
    rw select-append (
      rw (r, superseded)
        (rw (select-none (has_kind evt) b.db.rows)
          (ground (arith, eq_iff evt.pub_key evt.pub_key, int_beq_iff evt.kind evt.kind)))))

-- With no failure, SaveEvent returns storage.ErrDupEvent exactly if an event that it does not
-- replace has the new event's id, and then inserts nothing; else it returns no error.
pub save_event-dup :
    (n : Nostr) (evt : Event) (b : PostgresBackend)
    → b.db.faults ≡ []
    → ((save_event n evt b).0
        ≡ (if any (λ r. r.id == evt.id) (survivors n evt b.db.rows) then some dup_event else none))
      × ((save_event n evt b).1.db.rows ≡ (
          if any (λ r. r.id == evt.id) (survivors n evt b.db.rows)
          then survivors n evt b.db.rows
          else survivors n evt b.db.rows ++ (evt ∷ [])))
unfolding save_event insert_new
save_event-dup n evt b e =
    let db = delete_past n evt b.db in
    let sure : fault_of db.faults ≡ fine = ap fault_of (faults-delete_past n evt b.db e) in
    let rows : db.rows ≡ survivors n evt b.db.rows =
      delete_past-survivors n evt b.db (ap fault_of e) in
    rw (exec_fine (insert_new evt) db sure, ← rows) (inserted db.rows)
  where
    inserted :
        (rows : List Event)
        → (saved (ok (ok (insert_new evt rows).1))
            ≡ (if any (λ r. r.id == evt.id) rows then some dup_event else none))
          × ((insert_new evt rows).0
              ≡ (if any (λ r. r.id == evt.id) rows then rows else rows ++ (evt ∷ [])))
    inserted rows = ground arith

-- Without a failure, what DeleteEvent leaves is what it found, in its order, less the event that
-- has both the id and the author; and it returns no error, there being such an event or not.
pub delete_event-rows :
    (id pubkey : String) (b : PostgresBackend)
    → fault_of b.db.faults ≡ fine
    → ((delete_event id pubkey b).0 ≡ none)
      × ((delete_event id pubkey b).1.db.rows ≡ select (λ r. not (has_id id pubkey r)) b.db.rows)
unfolding delete_event
delete_event-rows id pubkey b e =
    rw (exec_fine (delete_where (has_id id pubkey)) b.db e)
      (refl, delete_where-select (has_id id pubkey) b.db.rows)
