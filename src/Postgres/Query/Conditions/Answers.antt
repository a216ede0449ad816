-- ===== src/Postgres/Query/Conditions/Answers.antt =====
-- What QueryEvents returns of a table, if the database runs the statement by the meaning of SQL.
use Prim.Native.String.{len}
use demedia_nostr.Prelude.{
  ℕ, zero, suc, String, Bool, false, some, List, [], ◌∷◌, ◌++◌, map, take, All, ltb, ℤ, pos, negsuc,
  ◌≡◌, refl, ◌∙◌, sym, ap, arith, Option-cases, inl, inr, if◌then◌else◌,
}
use mathlib.Core.List.{append_assoc, append-nil}
use demedia_nostr.Nostr.{Event, Filter, Result, ok}
use demedia_nostr.Postgres.Select.{select}
use demedia_nostr.Postgres.Query.Text.{Param, limit_param, scan_rows, query_events}
use demedia_nostr.Postgres.Query.Conditions.{Condition, conditions, printed}
use demedia_nostr.Postgres.Query.Conditions.Printing.{statement-conditions}
use demedia_nostr.Postgres.Query.Conditions.Meaning.{
  all_hold, selects, is_selected_by, IsSmall, selects-conditions,
}

-- How many events at most: the filter's limit if it is from 1 to 100, else 100.
abbrev pub page : ℤ → ℕ
page (pos n) = if ltb 0 n then (if ltb 100 n then 100 else n) else 100
page (negsuc n) = 100

limit_param-page : (limit : ℤ) → limit_param limit ≡ pos (page limit)
unfolding limit_param
limit_param-page (pos n) = ground arith
limit_param-page (negsuc n) = refl

scan_rows_all : (events rows : List Event) → scan_rows events (map ok rows) ≡ ok (events ++ rows)
unfolding scan_rows
scan_rows_all events [] = ap ok (sym (append-nil events))
scan_rows_all events (r ∷ rows) =
    scan_rows_all (events ++ (r ∷ [])) rows ∙ ap ok (append_assoc events (r ∷ []) rows)

pub select_ext :
    (p q : Event → Bool) (rows : List Event)
    → All (λ r. p r ≡ q r) rows
    → select p rows ≡ select q rows
unfolding select
select_ext p q [] h = refl
select_ext p q (r ∷ rows) (h, hs) = ground (arith, h, select_ext p q rows hs)

select_none : (rows : List Event) → select (λ r. false) rows ≡ []
unfolding select
select_none [] = refl
select_none (r ∷ rows) = select_none rows

take_none : (n : ℕ) → take {A = Event} n [] ≡ []
take_none zero = refl
take_none (suc n) = refl

select-is_selected_by :
    (f : Filter) (rows : List Event)
    → IsSmall f
    → All (λ r. (len r.id ≡ 64) × (len r.pub_key ≡ 64)) rows
    → select (selects (conditions f)) rows ≡ select (is_selected_by f) rows
select-is_selected_by f rows small full =
    select_ext (selects (conditions f)) (is_selected_by f) rows (each rows full)
  where
    each :
        (rs : List Event)
        → All (λ r. (len r.id ≡ 64) × (len r.pub_key ≡ 64)) rs
        → All (λ r. selects (conditions f) r ≡ is_selected_by f r) rs
    each [] h = tt
    each (r ∷ rs) ((i, k), hs) = (selects-conditions f r small i k, each rs hs)

-- If the database runs the statement that is printed of the filter's conditions by the meaning of
-- SQL, which is to give of the rows that satisfy them the first ones in its order, then for a
-- filter with at most 500 IDs, 500 authors, 10 kinds and 10 values of tags QueryEvents returns the
-- first ones, as many as the filter's limit if that is from 1 to 100, else 100, of the rows such
-- that some listed ID and some listed author stands for the same 32 bytes as the row's, the kind is
-- listed, some value of some tag of the filter is the second item of a tag of the row whose name has
-- one letter, whatever the name of either, and the time is strictly between the bounds: each of
-- these where the filter has it. A list that is there and empty, also of the values of one tag,
-- finds nothing. All rows have IDs and public keys of 64 characters, and the order of no row is none.
pub query_events-is_selected_by :
    (rebind quote : String → String) (query : String → List Param → Result (List (Result Event)))
    (sort : List Event → List Event) (rows : List Event) (f : Filter)
    → IsSmall f
    → All (λ r. (len r.id ≡ 64) × (len r.pub_key ≡ 64)) rows
    → sort [] ≡ []
    → ((cs : List Condition) (n : ℕ)
        → conditions f ≡ some cs
        → limit_param f.limit ≡ pos n
        → query (rebind (printed f.limit cs).0) (printed f.limit cs).1
          ≡ ok (map ok (take n (sort (select (all_hold cs) rows)))))
    → query_events rebind quote query (some f)
      ≡ ok (take (page f.limit) (sort (select (is_selected_by f) rows)))
unfolding query_events
query_events-is_selected_by rebind quote query sort rows f small full empty runs =
    rw (statement-conditions f, ← select-is_selected_by f rows small full)
      (elim (Option-cases (conditions f)) [
        | inl e ↦ rw (e, select_none rows, empty, take_none (page f.limit)) refl
        | inr (cs, e) ↦
            rw (e, runs cs (page f.limit) e (limit_param-page f.limit))
              (scan_rows_all [] (take (page f.limit) (sort (select (all_hold cs) rows))))
      ])
