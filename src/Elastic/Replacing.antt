-- ===== src/Elastic/Replacing.antt =====
-- Which events the SaveEvent of the Elasticsearch storage deletes.
pub mod Owned
use Prim.Native.String.{len}
use package.text.Mathlib.Text.{starts_with}
use demedia_nostr.Prelude.{
  ℕ, String, Bool, true, false, ◌&&◌, ◌||◌, ◌==◌, eq_iff, Option, none, some, List, [], ◌∷◌, ◌++◌,
  map, any, ◌≡◌, refl, ◌∙◌, sym, ap, arith, Bool-cases, ℤ, pos, int_beq, int_beq_iff, int_leb,
  int_ltb, In, All, inl, inr, ◌⊎◌, if◌then◌else◌, Option-cases,
}
use demedia_nostr.Nostr.{Event, Filter, Nostr, Error, Result, ok, err, Result-cases}
use demedia_nostr.Elastic.Dsl.{Leaf, Clause, Dsl, values_of, build_dsl}
use demedia_nostr.Elastic.Client.{
  IndexedEvent, Response, refused, body, Client, Run, returns, blocks, exits, Act,
}
use demedia_nostr.Elastic.Write.{
  past_filter, d_filter, past_query, is_replaceable, delete_ids, or_none, ids_found, ids_to_delete,
}
use demedia_nostr.Elastic.Search.{
  send_by_id, hits, run_search, unless_failed, query_events, limit_of,
}
use demedia_nostr.Elastic.Meaning.{items, IsDocumented, is_found_by, has_tag_item}
use demedia_nostr.Prelude.Matching.{is_one_of, none_or_any, starts_with_full}
use demedia_nostr.Elastic.Meaning.Query.{matches-build_dsl}

int_beq_refl : (k : ℤ) → int_beq k k ≡ true
int_beq_refl k = (int_beq_iff k k).1 refl

starts_with_refl : (s : String) → starts_with s s ≡ true
starts_with_refl s = starts_with_full s s (omega arith) ∙ (eq_iff s s).1 refl

any_last :
    (p : String → Bool) (xs : List String) (x : String) → p x ≡ true → any p (xs ++ (x ∷ [])) ≡ true
any_last p [] x h = ground (arith, h)
any_last p (y ∷ xs) x h = ground (arith, any_last p xs x h)

module _ (n : Nostr) (evt : Event) where
  -- What a query for past events finds has the author as a prefix and the kind of the event.
  pub is_found_by-past_query :
      (f : Filter) (r : Event)
      → past_query n evt ≡ some f
      → is_found_by f r ≡ true
      → (starts_with r.pub_key evt.pub_key ≡ true) × (int_beq evt.kind r.kind ≡ true)
  unfolding past_query is_found_by
  is_found_by-past_query f r h a = ground (arith, h, a)

  is_found_by-d_filter :
      (d : String) (r : Event)
      → r.pub_key ≡ evt.pub_key
      → r.kind ≡ evt.kind
      → is_one_of (items r.tags) "d" ≡ true
      → is_found_by (d_filter evt d) r ≡ true
  unfolding is_found_by
  is_found_by-d_filter d r p q t = ground (
    arith,
    p,
    q,
    starts_with_refl evt.pub_key,
    int_beq_refl evt.kind,
    any_last (λ v. is_one_of (items r.tags) v) (d ∷ []) "d" t,
  )

  module _ (matches : Dsl → Event → Bool) (clause : Clause → Event → Bool)
      (hit : Leaf → Event → Bool) (documented : IsDocumented matches clause hit) where
    -- By the documented meaning of its queries: if the past events of an event are queried with a
    -- value of "d", then every event of the same author and kind that has an item "d" in any of its
    -- tags is a hit, whatever its own value of "d" is.
    pub past_query_overmatches :
        (d : String) (r : Event)
        → past_query n evt ≡ some (d_filter evt d)
        → len r.id ≡ 64
        → len r.pub_key ≡ 64
        → r.pub_key ≡ evt.pub_key
        → r.kind ≡ evt.kind
        → is_one_of (items r.tags) "d" ≡ true
        → matches (build_dsl (d_filter evt d)) r ≡ true
    past_query_overmatches d r h i k p q t =
        matches-build_dsl matches clause hit documented r (d_filter evt d) i k
        ∙ is_found_by-d_filter d r p q t
