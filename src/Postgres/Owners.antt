-- ===== src/Postgres/Owners.antt =====
-- What one user's calls do to the other users' rows, and the unique index on the ids.
use demedia_nostr.Prelude.{
  ◌≡◌, ◌≢◌, refl, ◌∙◌, String, ◌==◌, eq_iff, Bool, false, List, [], ◌∷◌, ◌++◌, arith, any,
  Bool-cases, inl, inr,
}
use mathlib.Core.List.{append-nil}
use demedia_nostr.Nostr.{Event, Nostr}
use demedia_nostr.Postgres.Table.{
  PostgresBackend, delete_where, insert_new, has_id, has_kind, has_content, delete_event,
  save_event, after_save,
}
use demedia_nostr.Postgres.Select.{
  select, select-append, select-delete_where, any-select, delete_where-select, exec_keeps,
  save_event_keeps,
}

-- A call of one of the three methods that write to the table.
pub data Op : Type 0 where
  save : Event → Op
  after : Event → Op
  delete : String → String → Op

unfoldable pub apply : Nostr → Op → PostgresBackend → PostgresBackend
apply n (save evt) b = (save_event n evt b).1
apply n (after evt) b = (after_save evt b).1
apply n (delete id pubkey) b = (delete_event id pubkey b).1

abbrev pub owner : Op → String
owner (save evt) = evt.pub_key
owner (after evt) = evt.pub_key
owner (delete id pubkey) = pubkey

-- The rows of a user.
abbrev pub rows_of : String → List Event → List Event
rows_of pubkey = select (λ r. r.pub_key == pubkey)

module _ (pubkey : String) where
  rows_of-insert :
      (rows : List Event) (evt : Event)
      → evt.pub_key ≢ pubkey
      → rows_of pubkey (insert_new evt rows).0 ≡ rows_of pubkey rows
  unfolding insert_new select
  rows_of-insert rows evt h = elim (Bool-cases (any (λ r. r.id == evt.id) rows)) [
    | inl e ↦ rw (e, insert_new)
    | inr e ↦
        rw (e, insert_new)
          (rw select-append
            (ground (arith, eq_iff evt.pub_key pubkey, append-nil (rows_of pubkey rows))))
  ]

  rows_of-delete :
      (rows : List Event) (test : Event → Bool)
      → ((r : Event) → r.pub_key ≡ pubkey → test r ≡ false)
      → rows_of pubkey (delete_where test rows).0 ≡ rows_of pubkey rows
  rows_of-delete rows test h =
      select-delete_where (λ r. r.pub_key == pubkey) test rows
        (λ r e. h r ((eq_iff r.pub_key pubkey).0 e))

  has_kind_other :
      (evt r : Event) → evt.pub_key ≢ pubkey → r.pub_key ≡ pubkey → has_kind evt r ≡ false
  has_kind_other evt r h e = ground (arith, eq_iff r.pub_key evt.pub_key)

-- Whatever the database's failures, a call leaves the rows of every other user as they are, and
-- in their order: a deletion with another user's id too.
pub rows_of-apply :
    (n : Nostr) (op : Op) (b : PostgresBackend) (pubkey : String)
    → owner op ≢ pubkey
    → rows_of pubkey (apply n op b).db.rows ≡ rows_of pubkey b.db.rows
unfolding apply delete_event after_save
rows_of-apply n (save evt) b pubkey h =
    save_event_keeps n (λ rows. rows_of pubkey rows ≡ rows_of pubkey b.db.rows) evt
      (λ rows s. rows_of-delete pubkey rows (has_kind evt) (λ r. has_kind_other pubkey evt r h) ∙ s)
      (λ rows s.
        rows_of-delete pubkey rows (has_content evt)
          (λ r e. ground (arith, has_kind_other pubkey evt r h e))
        ∙ s)
      (λ rows s. rows_of-insert pubkey rows evt h ∙ s) b refl
rows_of-apply n (after evt) b pubkey h =
    exec_keeps (λ rows. rows_of pubkey rows ≡ rows_of pubkey b.db.rows) _
      (λ rows s.
        rows_of-delete pubkey rows _ (λ r e. ground (arith, has_kind_other pubkey evt r h e)) ∙ s)
      b.db refl
rows_of-apply n (delete id owned) b pubkey h =
    exec_keeps (λ rows. rows_of pubkey rows ≡ rows_of pubkey b.db.rows) _
      (λ rows s.
        rows_of-delete pubkey rows (has_id id owned) (λ r e. ground (arith, eq_iff r.pub_key owned))
        ∙ s)
      b.db refl

-- The unique index: no id stands twice.
abbrev pub NodupIds : List Event → Type 0
NodupIds [] = Unit
NodupIds (r ∷ rows) = (any (λ s. s.id == r.id) rows ≡ false) × NodupIds rows

NodupIds-select :
    (test : Event → Bool) (rows : List Event) → NodupIds rows → NodupIds (select test rows)
unfolding select
NodupIds-select test [] h = tt
NodupIds-select test (r ∷ rows) h =
    ground (arith, NodupIds-select test rows h.1, any-select (λ s. s.id == r.id) test rows h.0)

NodupIds-delete :
    (test : Event → Bool) (rows : List Event) → NodupIds rows → NodupIds (delete_where test rows).0
NodupIds-delete test rows h = rw delete_where-select (NodupIds-select _ rows h)

any-snoc :
    (r evt : Event) (rows : List Event)
    → any (λ s. s.id == r.id) rows ≡ false
    → (evt.id == r.id) ≡ false
    → any (λ s. s.id == r.id) (rows ++ (evt ∷ [])) ≡ false
any-snoc r evt [] h e = ground arith
any-snoc r evt (s ∷ rows) h e = ground (arith, any-snoc r evt rows)

NodupIds-snoc :
    (evt : Event) (rows : List Event)
    → NodupIds rows
    → any (λ s. s.id == evt.id) rows ≡ false
    → NodupIds (rows ++ (evt ∷ []))
NodupIds-snoc evt [] h e = (refl, tt)
NodupIds-snoc evt (r ∷ rows) h e = ground (
  arith,
  eq_iff r.id evt.id,
  eq_iff evt.id r.id,
  any-snoc r evt rows h.0,
  NodupIds-snoc evt rows h.1,
)

NodupIds-insert :
    (evt : Event) (rows : List Event) → NodupIds rows → NodupIds (insert_new evt rows).0
unfolding insert_new
NodupIds-insert evt rows h = elim (Bool-cases (any (λ s. s.id == evt.id) rows)) [
  | inl e ↦ rw (e, insert_new) h
  | inr e ↦ rw (e, insert_new) (NodupIds-snoc evt rows h e)
]

-- No call of a method that writes to the table, failing or not, stores an id a second time.
pub apply-NodupIds :
    (n : Nostr) (op : Op) (b : PostgresBackend)
    → NodupIds b.db.rows
    → NodupIds (apply n op b).db.rows
unfolding apply delete_event after_save
apply-NodupIds n (save evt) b h =
    save_event_keeps n NodupIds evt (NodupIds-delete _) (NodupIds-delete _) (NodupIds-insert evt) b
      h
apply-NodupIds n (after evt) b h = exec_keeps NodupIds _ (NodupIds-delete _) b.db h
apply-NodupIds n (delete id pubkey) b h = exec_keeps NodupIds _ (NodupIds-delete _) b.db h
