-- ===== src/Elastic/Dsl.antt =====
-- query.go: buildDsl and isGetByID. The values of the package esquery are data of the model: a
-- query is what Must was called with, in order, and each of these is a leaf or a query of what
-- Should was called with.
use Prim.Native.String.{len}
use demedia_nostr.Prelude.{
  String, Bool, true, false, not, ◌&&◌, Option, none, some, List, [], ◌∷◌, ◌++◌, map, ltb, nat_beq,
  ℤ, if◌then◌else◌,
}
use demedia_nostr.Prelude.Map.{Map}
use demedia_nostr.Nostr.{Filter}

-- What the argument `interface{}` of Gte and Lte holds here, a time.Time that is not yet written as
-- JSON, by its time in seconds. The client's `marshal_query` writes it, as it writes all of a query.
pub data Instant : Type 0 where
  at_unix : ℤ → Instant

pub data Value : Type 0 where
  text : String → Value
  int : ℤ → Value

pub data Leaf : Type 0 where
  prefix : String → String → Leaf
  term : String → String → Leaf
  terms : String → List Value → Leaf
  gte : String → Instant → Leaf
  lte : String → Instant → Leaf

pub data Clause : Type 0 where
  leaf : Leaf → Clause
  should : List Leaf → Clause

abbrev pub Dsl : Type 0
Dsl = List Clause

-- A value of a slice that may be nil.
abbrev pub values_of {ℓ} : {A : Type ℓ} → Option (List A) → List A
values_of none = []
values_of (some xs) = xs

abbrev pub prefix_leaf : String → String → Leaf
prefix_leaf field_name v = if ltb (len v) 64 then prefix field_name v else term field_name v

-- prefixFilter
unfoldable pub prefix_filter : String → List String → Dsl
prefix_filter field_name [] = []
prefix_filter field_name (v ∷ values) = should (map (prefix_leaf field_name) (v ∷ values)) ∷ []

unfoldable pub kinds_clause : List ℤ → Dsl
kinds_clause [] = []
kinds_clause (k ∷ kinds) = leaf (terms "event.kind" (map int (k ∷ kinds))) ∷ []

-- append(terms, char)
abbrev pub tag_leaf : String × List String → Leaf
tag_leaf (char, values) = terms "event.tags" (map text (values ++ (char ∷ [])))

unfoldable pub tags_clause : Map String (List String) → Dsl
tags_clause [] = []
tags_clause (t ∷ tags) = should (map tag_leaf (t ∷ tags)) ∷ []

abbrev pub since_clause : Option ℤ → Dsl
since_clause none = []
since_clause (some t) = leaf (gte "event.created_at" (at_unix t)) ∷ []

abbrev pub until_clause : Option ℤ → Dsl
until_clause none = []
until_clause (some t) = leaf (lte "event.created_at" (at_unix t)) ∷ []

-- What the function marshals.
unfoldable pub build_dsl : Filter → Dsl
unfolding prefix_filter kinds_clause tags_clause
build_dsl f =
    prefix_filter "event.id" (values_of f.ids)
    ++ (prefix_filter "event.pubkey" (values_of f.authors)
        ++ (kinds_clause (values_of f.kinds)
            ++ (tags_clause f.tags ++ (since_clause f.since ++ until_clause f.until))))

abbrev pub is_nil {ℓ} : {A : Type ℓ} → List A → Bool
is_nil [] = true
is_nil (x ∷ xs) = false

abbrev pub is_none {ℓ} : {A : Type ℓ} → Option A → Bool
is_none none = true
is_none (some x) = false

-- The loop: no id has another length.
abbrev pub all_full : List String → Bool
all_full [] = true
all_full (id ∷ ids) = nat_beq (len id) 64 && all_full ids

unfoldable pub is_get_by_id : Filter → Bool
is_get_by_id f =
    not (is_nil (values_of f.ids))
    && is_nil (values_of f.authors)
    && is_nil (values_of f.kinds)
    && is_nil f.tags
    && is_none f.since
    && is_none f.until
    && all_full (values_of f.ids)
