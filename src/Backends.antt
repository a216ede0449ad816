-- ===== src/Backends.antt =====
-- relayer/storage: what a peer finds with the one storage and with the other, by the documented
-- meanings of SQL and of the queries of Elasticsearch.
use Prim.Native.String.{len}
use package.text.Mathlib.Text.{starts_with}
use demedia_nostr.Prelude.{
  String, Bool, true, false, eq_iff, Option, none, some, List, [], ◌∷◌, any, map, take, All,
  All-imp, ℕ, length, nat_beq_iff, ℤ, pos, int_beq, ◌≡◌, refl, ◌∙◌, sym, ap, arith,
}
use demedia_nostr.Prelude.Hex.{Bytes, hex_encode, hex_decode}
use demedia_nostr.Nostr.{Event, Filter, Result, ok}
use demedia_nostr.Elastic.Dsl.{values_of, Dsl, Clause, Leaf, build_dsl}
use demedia_nostr.Elastic.Meaning.{IsDocumented, is_found_by}
use demedia_nostr.Prelude.Matching.{none_or_any, starts_with_full}
use demedia_nostr.Elastic.Meaning.Query.{matches-build_dsl}
use demedia_nostr.Postgres.Select.{select}
use demedia_nostr.Postgres.Query.Text.{Param, limit_param, query_events}
use demedia_nostr.Postgres.Query.Bounds.{len-hex_encode}
use demedia_nostr.Postgres.Query.Conditions.{Condition, conditions, printed}
use demedia_nostr.Postgres.Query.Conditions.Meaning.{
  names, is_listed, is_of_kind, is_selected_by, IsSmall, all_hold,
}
use demedia_nostr.Postgres.Query.Conditions.Answers.{page, select_ext, query_events-is_selected_by}
use demedia_nostr.Postgres.Query.Saved.{names_itself}

-- A list that is not there, or not empty.
abbrev pub is_full {ℓ} : {A : Type ℓ} → Option (List A) → Bool
is_full none = true
is_full (some []) = false
is_full (some (x ∷ xs)) = true

-- The texts are 64 hexadecimal digits in lower case.
abbrev pub AllNames : Option (List String) → Type 0
AllNames none = Unit
AllNames (some vs) = All (λ v. names (hex_decode v) v ≡ true) vs

len_named : (o : Option Bytes) (v : String) → names o v ≡ true → len v ≡ 64
len_named none v h = absurd (ground (arith, h))
len_named (some bs) v h =
    let whole : hex_encode bs ≡ v = ground (arith, h, eq_iff (hex_encode bs) v) in
    let bytes : length bs ≡ 32 = ground (arith, h, nat_beq_iff (length bs) 32) in
    omega (arith, ap len whole, bytes, len-hex_encode bs)

named_prefix :
    (v s : String)
    → names (hex_decode v) v ≡ true
    → len s ≡ 64
    → names (hex_decode v) s ≡ starts_with s v
named_prefix v s h l =
    let whole = starts_with_full s v (omega (arith, len_named (hex_decode v) v h, l)) in
    ground (arith, whole, names_itself (hex_decode v) v s h, eq_iff s v, eq_iff v s)

any_listed :
    (vs : List String) (s : String)
    → All (λ v. names (hex_decode v) v ≡ true) vs
    → len s ≡ 64
    → any (λ v. names (hex_decode v) s) vs ≡ any (λ v. starts_with s v) vs
any_listed [] s h l = refl
any_listed (v ∷ vs) s h l = ground (arith, named_prefix v s h.0 l, any_listed vs s h.1 l)

listed_prefix :
    (o : Option (List String)) (s : String)
    → AllNames o
    → is_full o ≡ true
    → len s ≡ 64
    → is_listed o s ≡ none_or_any (λ v. starts_with s v) (values_of o)
listed_prefix none s h f l = refl
listed_prefix (some []) s h f l = absurd (ground (arith, f))
listed_prefix (some (v ∷ vs)) s h f l = any_listed (v ∷ vs) s h l

of_kind_compared :
    (o : Option (List ℤ)) (k : ℤ)
    → is_full o ≡ true
    → is_of_kind o k ≡ none_or_any (λ x. int_beq x k) (values_of o)
of_kind_compared none k f = refl
of_kind_compared (some []) k f = absurd (ground (arith, f))
of_kind_compared (some (x ∷ xs)) k f = refl

-- A filter within the bounds of QueryEvents of Postgres, without tags and times, whose IDs and
-- authors are 64 hexadecimal digits in lower case, and none of whose lists is there and empty.
pub record IsPlain (f : Filter) : Type 0 where
  pub is_small : IsSmall f
  pub ids : AllNames f.ids
  pub authors : AllNames f.authors
  pub full_ids : is_full f.ids ≡ true
  pub full_authors : is_full f.authors ≡ true
  pub full_kinds : is_full f.kinds ≡ true
  pub tags : f.tags ≡ []
  pub since : f.since ≡ none
  pub until : f.until ≡ none

is_selected_by-is_found_by :
    (f : Filter) (e : Event)
    → IsPlain f
    → len e.id ≡ 64
    → len e.pub_key ≡ 64
    → is_selected_by f e ≡ is_found_by f e
unfolding is_selected_by is_found_by
is_selected_by-is_found_by f e p li la =
    rw
      (
        listed_prefix f.ids e.id p.ids p.full_ids li,
        listed_prefix f.authors e.pub_key p.authors p.full_authors la,
        of_kind_compared f.kinds e.kind p.full_kinds,
        p.tags,
        p.since,
        p.until,
      )
      refl

module _ (matches : Dsl → Event → Bool) (clause : Clause → Event → Bool) (hit : Leaf → Event → Bool)
    (documented : IsDocumented matches clause hit) where
  select-matches :
      (f : Filter) (rows : List Event)
      → IsPlain f
      → All (λ r. (len r.id ≡ 64) × (len r.pub_key ≡ 64)) rows
      → select (is_selected_by f) rows ≡ select (matches (build_dsl f)) rows
  select-matches f rows p full = select_ext (is_selected_by f) (matches (build_dsl f)) rows (
      All-imp _ _ rows
        (λ r h.
          is_selected_by-is_found_by f r p h.0 h.1
          ∙ sym (matches-build_dsl matches clause hit documented r f h.0 h.1))
        full)

  -- By the documented meanings, QueryEvents of Postgres returns for a filter the first ones, in the
  -- order of the database and as many as the filter's limit if that is from 1 to 100, else 100, of
  -- the rows that are hits of what buildDsl makes of the filter for Elasticsearch. The filter has no
  -- tags and no times, at most 500 IDs, 500 authors and 10 kinds, none of these lists there and
  -- empty, and its IDs and authors are 64 hexadecimal digits in lower case; all rows have IDs and
  -- public keys of 64 characters; and the database gives, of the rows that satisfy the conditions
  -- printed in the statement, the first ones in its order, by which no rows are none.
  pub query_events-matches :
      (rebind quote : String → String) (query : String → List Param → Result (List (Result Event)))
      (sort : List Event → List Event) (rows : List Event) (f : Filter)
      → IsPlain f
      → All (λ r. (len r.id ≡ 64) × (len r.pub_key ≡ 64)) rows
      → sort [] ≡ []
      → ((cs : List Condition) (n : ℕ)
          → conditions f ≡ some cs
          → limit_param f.limit ≡ pos n
          → query (rebind (printed f.limit cs).0) (printed f.limit cs).1
            ≡ ok (map ok (take n (sort (select (all_hold cs) rows)))))
      → query_events rebind quote query (some f)
        ≡ ok (take (page f.limit) (sort (select (matches (build_dsl f)) rows)))
  query_events-matches rebind quote query sort rows f p full empty runs =
      rw (← select-matches f rows p full)
        (query_events-is_selected_by rebind quote query sort rows f p.is_small full empty runs)
