-- ===== src/Postgres/Recent.antt =====
-- Which rows AfterSave deletes.
use demedia_nostr.Prelude.{
  In, ℕ, zero, suc, ◌+◌, ◌≤◌, ◌<◌, ◌≡◌, refl, String, ◌==◌, eq_iff, Bool, true, false, not, ◌&&◌,
  Option, some, List, [], ◌∷◌, arith, get_elem?, if◌then◌else◌, ℤ, pos, negsuc, int_leb, int_ltb,
  inl, inr, Option-cases, Bool-cases,
}
use mathlib.Core.Path.{subst, sym}
use demedia_nostr.Nostr.{Event}
use demedia_nostr.Postgres.Table.{
  PostgresBackend, delete_where, has_kind, insert_desc, times_desc, is_before, after_save,
}
use demedia_nostr.Postgres.Select.{select, select-delete_where, exec_keeps}

-- Rows of other kinds or other users are not touched, however many there are of them and
-- whatever the database's failures.
pub after_save_others :
    (evt : Event) (b : PostgresBackend)
    → select (λ r. not (has_kind evt r)) (after_save evt b).1.db.rows
      ≡ select (λ r. not (has_kind evt r)) b.db.rows
unfolding after_save
after_save_others evt b =
    exec_keeps
      (λ rows.
        select (λ r. not (has_kind evt r)) rows ≡ select (λ r. not (has_kind evt r)) b.db.rows)
      (delete_where (λ r. has_kind evt r && is_before bound r.created_at))
      (λ rows s.
        rw
          (select-delete_where (λ r. not (has_kind evt r))
            (λ r. has_kind evt r && is_before bound r.created_at) rows (λ r e. ground arith))
          s)
      b.db refl
  where
    bound : Option ℤ
    bound = get_elem? (times_desc evt.pub_key b.db.rows) 100

-- How many of the times are at or after a time.
since_count : ℤ → List ℤ → ℕ
since_count u [] = 0
since_count u (t ∷ ts) = (if int_leb u t then 1 else 0) + since_count u ts

abbrev AllBefore : ℤ → List ℤ → Type 0
AllBefore t [] = Unit
AllBefore t (u ∷ us) = (int_leb u t ≡ true) × AllBefore t us

abbrev IsDesc : List ℤ → Type 0
IsDesc [] = Unit
IsDesc (t ∷ ts) = AllBefore t ts × IsDesc ts

int_leb_trans : (a b c : ℤ) → int_leb a b ≡ true → int_leb b c ≡ true → int_leb a c ≡ true
int_leb_trans (pos a) (pos b) (pos c) h k = ground arith
int_leb_trans (negsuc a) (pos b) (pos c) h k = ground arith
int_leb_trans (negsuc a) (negsuc b) (pos c) h k = ground arith
int_leb_trans (negsuc a) (negsuc b) (negsuc c) h k = ground arith
int_leb_trans _ _ _ h k = ground arith

int_leb_total : (a b : ℤ) → int_leb a b ≡ false → int_leb b a ≡ true
int_leb_total (pos a) (pos b) h = ground arith
int_leb_total (negsuc a) (negsuc b) h = ground arith
int_leb_total _ _ h = ground arith

AllBefore-trans : (t u : ℤ) (ts : List ℤ) → int_leb t u ≡ true → AllBefore t ts → AllBefore u ts
AllBefore-trans t u [] h a = tt
AllBefore-trans t u (x ∷ ts) h a = (int_leb_trans x t u a.0 h, AllBefore-trans t u ts h a.1)

AllBefore-insert_desc :
    (t u : ℤ) (ts : List ℤ) → int_leb t u ≡ true → AllBefore u ts → AllBefore u (insert_desc t ts)
unfolding insert_desc
AllBefore-insert_desc t u [] h a = (h, tt)
AllBefore-insert_desc t u (x ∷ ts) h a = ground (arith, AllBefore-insert_desc t u ts h a.1)

insert_desc-IsDesc : (t : ℤ) (ts : List ℤ) → IsDesc ts → IsDesc (insert_desc t ts)
unfolding insert_desc
insert_desc-IsDesc t [] d = (tt, tt)
insert_desc-IsDesc t (x ∷ ts) d = elim (Bool-cases (int_leb x t)) [
  | inl e ↦ rw (e, insert_desc) ((e, AllBefore-trans x t ts e d.0), d)
  | inr e ↦
      rw (e, insert_desc)
        (AllBefore-insert_desc t x ts (int_leb_total x t e) d.0, insert_desc-IsDesc t ts d.1)
]

times_desc-IsDesc : (pubkey : String) (rows : List Event) → IsDesc (times_desc pubkey rows)
unfolding times_desc
times_desc-IsDesc pubkey [] = tt
times_desc-IsDesc pubkey (r ∷ rows) = ground (
  arith,
  times_desc-IsDesc pubkey rows,
  insert_desc-IsDesc r.created_at (times_desc pubkey rows) (times_desc-IsDesc pubkey rows),
)

AllBefore-get_elem? :
    (t u : ℤ) (ts : List ℤ) (k : ℕ) → AllBefore t ts → get_elem? ts k ≡ some u → int_leb u t ≡ true
AllBefore-get_elem? t u [] k a e = cc
AllBefore-get_elem? t u (x ∷ ts) zero a e = ground arith
AllBefore-get_elem? t u (x ∷ ts) (suc k) a e = AllBefore-get_elem? t u ts k a.1 e

int_leb_refl : (t : ℤ) → int_leb t t ≡ true
int_leb_refl (pos n) = ground arith
int_leb_refl (negsuc n) = ground arith

-- In a descending list, all that stand up to a place are at or after the time there.
since_count-get_elem? :
    (ts : List ℤ) (k : ℕ) (u : ℤ) → IsDesc ts → get_elem? ts k ≡ some u → k < since_count u ts
unfolding since_count
since_count-get_elem? [] k u d e = cc
since_count-get_elem? (t ∷ ts) zero u d e = ground (arith, int_leb_refl t)
since_count-get_elem? (t ∷ ts) (suc k) u d e =
    ground (arith, AllBefore-get_elem? t u ts k d.0 e, since_count-get_elem? ts k u d.1 e)

since_count-insert_desc :
    (u t : ℤ) (ts : List ℤ)
    → since_count u (insert_desc t ts) ≡ (if int_leb u t then 1 else 0) + since_count u ts
unfolding since_count insert_desc
since_count-insert_desc u t [] = refl
since_count-insert_desc u t (x ∷ ts) = ground (arith, since_count-insert_desc u t ts)

-- How many of a user's events are newer than a time.
unfoldable pub newer_count : ℤ → String → List Event → ℕ
newer_count t pubkey [] = 0
newer_count t pubkey (r ∷ rows) =
    (if r.pub_key == pubkey && int_ltb t r.created_at then 1 else 0) + newer_count t pubkey rows

since_count-le :
    (t u : ℤ) (pubkey : String) (rows : List Event)
    → int_ltb t u ≡ true
    → since_count u (times_desc pubkey rows) ≤ newer_count t pubkey rows
unfolding newer_count times_desc since_count
since_count-le t u pubkey [] h = omega arith
since_count-le t u pubkey (r ∷ rows) h = ground (
  arith,
  since_count-le t u pubkey rows h,
  since_count-insert_desc u r.created_at (times_desc pubkey rows),
  int_leb_trans u r.created_at t,
)

In-delete_where :
    (test : Event → Bool) (r : Event) (rows : List Event)
    → test r ≡ false
    → In r rows
    → In r (delete_where test rows).0
unfolding delete_where
In-delete_where test r [] h i = elim i [ ]
In-delete_where test r (x ∷ rows) h (inl e) =
    let kept : test x ≡ false = subst (λ y. test y ≡ false) (sym e) h in
    rw (kept, delete_where) (inl e)
In-delete_where test r (x ∷ rows) h (inr i) = ground (arith, In-delete_where test r rows h i)

-- An event is kept if at most 100 of its author's events are newer than it, so the 101st most recent
-- one is kept too.
pub after_save_keeps_recent :
    (evt : Event) (b : PostgresBackend) (r : Event)
    → In r b.db.rows
    → newer_count r.created_at r.pub_key b.db.rows ≤ 100
    → In r (after_save evt b).1.db.rows
unfolding after_save
after_save_keeps_recent evt b r i few =
    exec_keeps (In r) (delete_where test) (λ rows. In-delete_where test r rows passes) b.db i
  where
    test : Event → Bool
    test r =
        has_kind evt r && is_before (get_elem? (times_desc evt.pub_key b.db.rows) 100) r.created_at

    passes : test r ≡ false
    passes = elim (Option-cases (get_elem? (times_desc evt.pub_key b.db.rows) 100)) [
      | inl e ↦ ground (arith, e)
      | inr (u, e) ↦ ground (
        arith,
        e,
        eq_iff r.pub_key evt.pub_key,
        since_count-get_elem? (times_desc evt.pub_key b.db.rows) 100 u
            (times_desc-IsDesc evt.pub_key b.db.rows) e,
        since_count-le r.created_at u evt.pub_key b.db.rows,
      )
    ]
