-- ===== src/Postgres/Select.antt =====
-- The rows that pass a test, and what the statements do to them.
use demedia_nostr.Prelude.{
  ℕ, ◌≡◌, refl, Bool, true, false, not, List, [], ◌∷◌, ◌++◌, arith, any, if◌then◌else◌, int_beq,
}
use demedia_nostr.Nostr.{Event, Nostr}
use demedia_nostr.Postgres.Table.{
  Fault, fine, exec_fails, count_fails, Db, fault_of, later, finish, exec, delete_where, insert_new,
  has_kind, has_content, is_replaceable, delete_past, save_event, PostgresBackend,
}

-- SELECT * FROM event WHERE test
unfoldable pub select : (Event → Bool) → List Event → List Event
select test [] = []
select test (r ∷ rows) = let rest = select test rows in if test r then r ∷ rest else rest

pub delete_where-select :
    (test : Event → Bool) (rows : List Event)
    → (delete_where test rows).0 ≡ select (λ r. not (test r)) rows
unfolding delete_where select
delete_where-select test [] = refl
delete_where-select test (r ∷ rows) = ground (arith, delete_where-select test rows)

pub select-append :
    (test : Event → Bool) (xs ys : List Event)
    → select test (xs ++ ys) ≡ select test xs ++ select test ys
unfolding select
select-append test [] ys = refl
select-append test (x ∷ xs) ys = ground (arith, select-append test xs ys)

-- Rows that pass a test which the deleted ones do not pass are all kept.
pub select-delete_where :
    (p test : Event → Bool) (rows : List Event)
    → ((r : Event) → p r ≡ true → test r ≡ false)
    → select p (delete_where test rows).0 ≡ select p rows
unfolding select delete_where
select-delete_where p test [] h = refl
select-delete_where p test (r ∷ rows) h = ground (arith, h r, select-delete_where p test rows h)

pub any-select :
    (p test : Event → Bool) (rows : List Event)
    → any p rows ≡ false
    → any p (select test rows) ≡ false
unfolding select
any-select p test [] h = refl
any-select p test (r ∷ rows) h = ground (arith, any-select p test rows)

-- A property of the rows that a statement keeps is kept by its execution, failing or not.
pub exec_keeps {ℓ} :
    (P : List Event → Type ℓ) (statement : List Event → List Event × ℕ)
    → ((rows : List Event) → P rows → P (statement rows).0)
    → (db : Db) → P db.rows
    → P (exec statement db).1.rows
unfolding exec
exec_keeps P statement keep db h = go (fault_of db.faults)
  where
    go : (f : Fault) → P (finish f db.rows (statement db.rows) (later db.faults)).1.rows
    go fine = keep db.rows h
    go (exec_fails e) = h
    go (count_fails e) = keep db.rows h

module _ {ℓ} (n : Nostr) (P : List Event → Type ℓ) (evt : Event) where
  -- A property that the two deletions and the insertion keep is kept by SaveEvent.
  pub save_event_keeps :
      ((rows : List Event) → P rows → P (delete_where (has_kind evt) rows).0)
      → ((rows : List Event) → P rows → P (delete_where (has_content evt) rows).0)
      → ((rows : List Event) → P rows → P (insert_new evt rows).0)
      → (b : PostgresBackend) → P b.db.rows
      → P (save_event n evt b).1.db.rows
  unfolding save_event
  save_event_keeps kind content insert b h =
      exec_keeps P (insert_new evt) insert (delete_past n evt b.db)
        (past (is_replaceable n evt.kind) (int_beq evt.kind n.kind_recommend_server))
    where
      past :
          (x y : Bool)
          → P
              (if x
                then (exec (delete_where (has_kind evt)) b.db).1
                else if y
                then (exec (delete_where (has_content evt)) b.db).1
                else b.db).rows
      past true y = exec_keeps P (delete_where (has_kind evt)) kind b.db h
      past false true = exec_keeps P (delete_where (has_content evt)) content b.db h
      past false false = h
