-- ===== src/Elastic/Answering.antt =====
-- query.go: what QueryEvents answers with, by the documented meaning of queries.
use Prim.Native.String.{len}
use mathlib.Core.Path.{subst}
use demedia_nostr.Prelude.{
  ℕ, ◌≤◌, String, Bool, true, some, List, [], ◌∷◌, map, length, length-map, ◌≡◌, refl, ◌∙◌, sym,
  arith, Bool-cases, All, inl, inr,
}
use demedia_nostr.Nostr.{Event, Filter, Result, ok, err}
use demedia_nostr.Elastic.Dsl.{Leaf, Clause, Dsl, build_dsl, is_get_by_id}
use demedia_nostr.Elastic.Client.{
  IndexedEvent, Response, refused, body, Client, Run, returns, blocks, exits, continue,
}
use demedia_nostr.Elastic.Write.{or_none}
use demedia_nostr.Elastic.Search.{
  get_by_id, after_get_by_id, send_by_id, hits, run_search, unless_failed, query_events, limit_of,
}
use demedia_nostr.Elastic.Meaning.{IsDocumented, is_found_by}
use demedia_nostr.Elastic.Meaning.Query.{matches-build_dsl}

-- What a call returns, if it returns, has the property.
abbrev pub Returns : {A : Type 0} → (A → Type 0) → Run A → Type 0
Returns P (returns a) = P a
Returns P blocks = Unit
Returns P exits = Unit

All-map :
    (Q : Event → Type 0) (found : List IndexedEvent)
    → All (λ (i : IndexedEvent). Q i.event) found
    → All Q (map (λ (i : IndexedEvent). i.event) found)
All-map Q [] h = tt
All-map Q (i ∷ found) h = (h.0, All-map Q found h.1)

-- What the program relies on the search for: the hits are documents that match the query, no more
-- than asked for, and the IDs and public keys of all documents have 64 characters.
pub record IsSearched {Env : Type 0} (es : Client Env) (index_name : String)
    (matches : Dsl → Event → Bool) (Stored : Event → Type 0) : Type 0 where
  pub of_search :
      (q : Dsl) (dsl : String) (size : ℕ) (sort : String) (w : Env) (found : List IndexedEvent)
      → es.marshal_query q ≡ ok dsl
      → (es.search index_name dsl size sort w).0 ≡ ok (body (ok found))
      → All (λ (i : IndexedEvent). Stored i.event × (matches q i.event ≡ true)) found
  pub of_size :
      (dsl : String) (size : ℕ) (sort : String) (w : Env) (found : List IndexedEvent)
      → (es.search index_name dsl size sort w).0 ≡ ok (body (ok found))
      → length found ≤ size
  pub full_id : (e : Event) → Stored e → len e.id ≡ 64
  pub full_pub_key : (e : Event) → Stored e → len e.pub_key ≡ 64

module _ {Env : Type 0} (es : Client Env) (index_name : String) (matches : Dsl → Event → Bool)
    (Stored : Event → Type 0) (searched : IsSearched es index_name matches Stored) where
  abbrev pub IsHit : Filter → Event → Type 0
  IsHit f e = Stored e × (matches (build_dsl f) e ≡ true)

  -- Stored events that match, and no more than the limit.
  abbrev pub AreHits : Filter → List Event → Type 0
  AreHits f events = All (IsHit f) events × (length events ≤ limit_of f.limit)

  Returns-hits :
      (P : List Event → Type 0) (r : Result (Response (List IndexedEvent))) (w : Env)
      → P []
      → ((found : List IndexedEvent)
          → r ≡ ok (body (ok found))
          → P (map (λ (i : IndexedEvent). i.event) found))
      → Returns (λ r'. P (or_none r')) (hits es index_name r w).0
  Returns-hits P (err e) w n h = tt
  Returns-hits P (ok (refused txt)) w n h = n
  Returns-hits P (ok (body (err e))) w n h = n
  Returns-hits P (ok (body (ok found))) w n h = h found refl

  no_hits : (f : Filter) → AreHits f []
  no_hits f = (tt, omega arith)

  AreHits-run_search :
      (f : Filter) (r : Result String) (w : Env)
      → es.marshal_query (build_dsl f) ≡ r
      → Returns (λ r'. AreHits f (or_none r')) (run_search es index_name f r w).0
  AreHits-run_search f (err e) w h = no_hits f
  AreHits-run_search f (ok dsl) w h = Returns-hits (AreHits f) _ _ (no_hits f) (λ found g. (
    All-map (IsHit f) found (searched.of_search (build_dsl f) dsl _ _ w found h g),
    subst (λ k. k ≤ limit_of f.limit) (sym (length-map found (λ (i : IndexedEvent). i.event)))
        (searched.of_size dsl _ _ w found g),
  ))

  AreHits-by_id :
      (f : Filter) (r : Result (List Event)) (w : Env)
      → Returns
          (λ r'. AreHits f (or_none r'))
          (continue (λ e. unless_failed es index_name f e) (after_get_by_id es index_name r w)).0
  AreHits-by_id f (err e) w = no_hits f
  AreHits-by_id f (ok []) w = AreHits-run_search f _ w refl
  AreHits-by_id f (ok (e ∷ events)) w = tt

  pub AreHits-query_events :
      (f : Filter) (w : Env)
      → Returns (λ r'. AreHits f (or_none r')) (query_events es index_name (some f) w).0
  unfolding query_events send_by_id get_by_id
  AreHits-query_events f w = elim (Bool-cases (is_get_by_id f)) [
    | inl b ↦ rw (b, query_events, send_by_id) (AreHits-by_id f _ _)
    | inr b ↦ rw (b, query_events, send_by_id) (AreHits-run_search f _ w refl)
  ]

  module _ (clause : Clause → Event → Bool) (hit : Leaf → Event → Bool)
      (documented : IsDocumented matches clause hit) where
    pub is_found_by-IsHit : (f : Filter) (e : Event) → IsHit f e → is_found_by f e ≡ true
    is_found_by-IsHit f e (s, m) =
        sym (
          matches-build_dsl matches clause hit documented e f (searched.full_id e s)
            (searched.full_pub_key e s))
        ∙ m
