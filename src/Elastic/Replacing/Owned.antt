-- ===== src/Elastic/Replacing/Owned.antt =====
-- Whose events the SaveEvent of the Elasticsearch storage deletes.
use Prim.Native.String.{len}
use mathlib.Core.Path.{subst}
use demedia_nostr.Prelude.{
  String, Bool, true, false, ◌==◌, eq_iff, Option, none, some, List, [], ◌∷◌, ◌≡◌, refl, ◌∙◌, sym,
  arith, int_beq, int_beq_iff, All, All-imp, if◌then◌else◌,
}
use demedia_nostr.Nostr.{Event, Filter, Nostr}
use demedia_nostr.Elastic.Dsl.{Leaf, Clause, Dsl}
use demedia_nostr.Elastic.Client.{Client, Run, returns, blocks, exits, Act, continue}
use demedia_nostr.Elastic.Write.{past_query, delete_ids, or_none, ids_found, ids_to_delete}
use demedia_nostr.Elastic.Meaning.{IsDocumented}
use demedia_nostr.Prelude.Matching.{starts_with_full}
use demedia_nostr.Elastic.Answering.{
  Returns, IsSearched, IsHit, AreHits, AreHits-query_events, is_found_by-IsHit,
}
use demedia_nostr.Elastic.Replacing.{is_found_by-past_query}

Returns-continue :
    {Env A B : Type 0} (P : A → Type 0) (Q : B → Type 0) (f : A → Act Env B) (r : Run A × Env)
    → Returns P r.0
    → ((a : A) (w : Env) → P a → Returns Q (f a w).0)
    → Returns Q (continue f r).0
Returns-continue P Q f (returns a, w) h k = k a w h
Returns-continue P Q f (blocks, w) h k = tt
Returns-continue P Q f (exits, w) h k = tt

All-if :
    (P : String → Type 0) (b : Bool) (xs ys : List String)
    → All P xs
    → All P ys
    → All P (if b then xs else ys)
All-if P true xs ys h k = h
All-if P false xs ys h k = k

module _ (Stored : Event → Type 0) (n : Nostr) (evt : Event) where
  -- The id of a document that holds an event of the author and the kind of the event.
  pub record IsPastId (id : String) : Type 0 where
    pub past : Event
    pub is_stored : Stored past
    pub has_id : past.id ≡ id
    pub same_pub_key : past.pub_key ≡ evt.pub_key
    pub same_kind : past.kind ≡ evt.kind

  delete_ids_lem :
      (P : String → Type 0) (events : List Event)
      → All (λ (e : Event). P e.id) events
      → All P (delete_ids n evt events)
  unfolding delete_ids
  delete_ids_lem P [] h = tt
  delete_ids_lem P (e ∷ events) h =
      let rest : All P (delete_ids n evt events) = delete_ids_lem P events h.1 in
      All-if P (int_beq evt.kind n.kind_recommend_server) _ _
        (All-if P (e.content == evt.content) _ _ (h.0, rest) rest) (h.0, rest)

  module _ {Env : Type 0} (es : Client Env) (index_name : String) (matches : Dsl → Event → Bool)
      (clause : Clause → Event → Bool) (hit : Leaf → Event → Bool)
      (documented : IsDocumented matches clause hit)
      (searched : IsSearched es index_name matches Stored) where
    is_past :
        (f : Filter) (e : Event)
        → past_query n evt ≡ some f
        → len evt.pub_key ≡ 64
        → IsHit es index_name matches Stored searched f e
        → IsPastId e.id
    is_past f e h l g =
        let (p, q) =
          is_found_by-past_query n evt f e h
            (is_found_by-IsHit es index_name matches Stored searched clause hit documented f e g) in
        record {
          past = e;
          is_stored = g.0;
          has_id = refl;
          same_pub_key = sym (
              (eq_iff evt.pub_key e.pub_key).0 (
                sym (
                  starts_with_full e.pub_key evt.pub_key
                    (omega (arith, l, searched.full_pub_key e g.0)))
                ∙ p));
          same_kind = sym ((int_beq_iff evt.kind e.kind).0 q);
        }

    All-ids_found :
        (o : Option Filter) (w : Env)
        → past_query n evt ≡ o
        → len evt.pub_key ≡ 64
        → Returns (All IsPastId) (ids_found es index_name n evt o w).0
    All-ids_found none w h l = tt
    All-ids_found (some f) w h l =
        Returns-continue (λ r. AreHits es index_name matches Stored searched f (or_none r))
          (All IsPastId) _ _ (AreHits-query_events es index_name matches Stored searched f w)
          (λ r w' a.
            delete_ids_lem IsPastId (or_none r)
              (All-imp _ _ (or_none r) (λ e. is_past f e h l) a.0))

    -- If the search finds only stored documents that match, by the documented meaning of queries,
    -- then every document that SaveEvent marks for deletion, for an event with a public key of 64
    -- characters, holds an event of the same author and the same kind.
    pub ids_to_delete-IsPastId :
        (w w' : Env) (ids : List String)
        → len evt.pub_key ≡ 64
        → ids_to_delete es index_name n evt w ≡ (returns ids, w')
        → All IsPastId ids
    unfolding ids_to_delete
    ids_to_delete-IsPastId w w' ids l h =
        subst (λ r. Returns (All IsPastId) r.0) h (All-ids_found (past_query n evt) w refl l)
