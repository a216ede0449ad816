-- ===== src/Tests/ElasticCases.antt =====
-- The theorems of Elastic at an index that holds one event, and a query language that does what
-- Elasticsearch documents.
use mathlib.Core.Path.{subst}
use Prim.Native.String.{len}
use package.text.Mathlib.Text.{starts_with}
use demedia_nostr.Prelude.{
  ltb, ◌≤◌, ℕ, length, String, Bool, true, false, ◌==◌, ◌&&◌, none, some, List, [], ◌∷◌, ◌++◌, any,
  map, ◌≡◌, refl, arith, pos, int_leb, if◌then◌else◌, All,
}
use demedia_nostr.Nostr.{Event, Nostr, Result, ok, err}
use demedia_nostr.Elastic.Dsl.{
  Leaf, prefix, term, terms, gte, lte, Clause, leaf, should, Dsl, build_dsl, is_get_by_id,
}
use demedia_nostr.Elastic.Client.{
  Doc, IndexedEvent, Response, refused, body, Item, index, delete, success, Client,
}
use demedia_nostr.Elastic.Search.{fetched, found_events, found_as, get_by_id, query_events}
use demedia_nostr.Elastic.Write.{
  indexed, save_event, ids_to_delete, past_query, d_filter, id_filter,
}
use demedia_nostr.Elastic.Meaning.{items, millis, int_value, text_value, IsDocumented}
use demedia_nostr.Elastic.Outcomes.{
  is_blocked, finds, query_events_blocks, get_by_id_last, save_event_ends,
}
use demedia_nostr.Elastic.Recording.{log-save_event}
use demedia_nostr.Elastic.Replacing.{past_query_overmatches}
use demedia_nostr.Elastic.Answering.{IsSearched}
use demedia_nostr.Elastic.Replacing.Owned.{IsPastId, ids_to_delete-IsPastId}
use demedia_nostr.Tests.Packages.{nostr}
use demedia_nostr.Tests.Hub.{note}

abbrev pub id64 : String
id64 = "0123456789abcdef0123456789abcdef0123456789abcdef0123456789abcdef"

abbrev pub key64 : String
key64 = "89abcdef012345670123456789abcdef0123456789abcdef0123456789abcdef"

-- An article, and another of the same author with another value of "d".
abbrev pub past : Event
past = record note { id = id64; pub_key = key64; kind = pos 30023; tags = ("d" ∷ "one" ∷ []) ∷ [] }

abbrev new : Event
new = record past { id = "n2"; tags = ("d" ∷ "two" ∷ []) ∷ [] }

abbrev articles : Nostr
articles = record nostr { tags_get_first_value = λ tags name. some "two" }

abbrev id_or_key : String → Event → String
id_or_key field_name e = if field_name == "event.id" then e.id else e.pub_key

abbrev pub hit : Leaf → Event → Bool
hit (prefix field_name v) e = starts_with (id_or_key field_name e) v
hit (term field_name v) e = v == id_or_key field_name e
hit (terms field_name vs) e =
    if field_name == "event.kind"
    then any (int_value e.kind) vs
    else any (text_value (items e.tags)) vs
hit (gte field_name t) e = int_leb (millis t) e.created_at
hit (lte field_name t) e = int_leb e.created_at (millis t)

abbrev pub clause : Clause → Event → Bool
clause (leaf l) e = hit l e
clause (should ls) e = any (λ l. hit l e) ls

abbrev pub matches : Dsl → Event → Bool
matches [] e = true
matches (c ∷ cs) e = clause c e && matches cs e

pub documented : IsDocumented matches clause hit
documented = record {
  must_nil = λ e. refl;
  must_cons = λ c cs e. refl;
  leaf_clause = λ l e. refl;
  should_clause = λ l ls e. refl;
  prefix_id = λ v e. refl;
  term_id = λ v e. refl;
  prefix_pubkey = λ v e. refl;
  term_pubkey = λ v e. refl;
  terms_kind = λ vs e. refl;
  terms_tags = λ vs e. refl;
  gte_created_at = λ t e. refl;
  lte_created_at = λ t e. refl;
}

-- The index holds the first article. What is remembered is what the bulk indexer is asked for.
abbrev es : Client (List Item)
es = record {
  marshal_query = λ q. ok (if matches q past then "hit" else "miss");
  marshal_indexed = λ i. ok "document";
  mget = λ index_name f w. (ok (ok (record { found = true; source = indexed past } ∷ [])), w);
  search = λ index_name dsl size sort w.
      (ok (body (ok (if dsl == "hit" && ltb 0 size then indexed past ∷ [] else []))), w);
  count = λ index_name dsl w. (ok (body (ok 1)), w);
  add = λ item w. (none, w ++ (item ∷ []));
  settle = λ item w. (success, w);
}

query_events_blocks_example :
    is_blocked (query_events es "events" (some (id_filter id64)) []).0
    ≡ (is_get_by_id (id_filter id64) && finds (fetched (es.mget "events" (id_filter id64) []).0))
query_events_blocks_example = query_events_blocks es "events" (id_filter id64) []

-- An answer in which the second document is not found.
abbrev two_docs : List Doc
two_docs =
    (record { found = true; source = indexed past } ∷ [])
    ++ (record { found = false; source = indexed new } ∷ [])

abbrev es_of_two : Client (List Item)
es_of_two = record es { mget = λ index_name f w. (ok (ok two_docs), w) }

get_by_id_last_example : All (λ e. e ≡ new) (new ∷ [])
unfolding get_by_id found_events found_as
get_by_id_last_example =
    get_by_id_last es_of_two "events" (id_filter id64)
      (record { found = true; source = indexed past } ∷ [])
      (record { found = false; source = indexed new }) (new ∷ []) [] [] refl refl

save_event_ends_example : is_blocked (save_event es "events" articles new []).0 ≡ false
save_event_ends_example =
    save_event_ends es "events" articles (λ item w h. ground (arith, h)) new []

past_query_overmatches_example : matches (build_dsl (d_filter new "two")) past ≡ true
unfolding past_query
past_query_overmatches_example =
    past_query_overmatches articles new matches clause hit documented "two" past refl refl refl refl
      refl refl

log-save_event_example :
    (save_event es "events" articles new []).1
    ≡ [] ++ (map delete (id64 ∷ []) ++ (index "n2" "document" ∷ []))
unfolding ids_to_delete build_dsl is_get_by_id
log-save_event_example =
    log-save_event es "events" articles (λ w. w)
      (record {
        of_add = λ item w. refl;
        of_settle = λ item w. refl;
        of_search = λ i d size sort w. refl;
      })
      new "document" (id64 ∷ []) [] [] refl refl

abbrev found_of : Result (Response (List IndexedEvent)) → List IndexedEvent
found_of (err e) = []
found_of (ok (refused txt)) = []
found_of (ok (body (err e))) = []
found_of (ok (body (ok found))) = found

abbrev IsStored : Event → Type 0
IsStored e = past ≡ e

abbrev of_ok : Result String → String
of_ok (ok s) = s
of_ok (err e) = ""

abbrev AllHits : Dsl → List IndexedEvent → Type 0
AllHits q = All (λ (i : IndexedEvent). IsStored i.event × (matches q i.event ≡ true))

All-answer :
    (q : Dsl) (b c : Bool) (dsl : String)
    → matches q past ≡ b
    → ok (if b then "hit" else "miss") ≡ ok dsl
    → AllHits q (if dsl == "hit" && c then indexed past ∷ [] else [])
All-answer q true true dsl h e =
    subst (λ s. AllHits q (if of_ok s == "hit" && true then indexed past ∷ [] else [])) e
      ((refl, h), tt)
All-answer q true false dsl h e =
    subst (λ s. AllHits q (if of_ok s == "hit" && false then indexed past ∷ [] else [])) e tt
All-answer q false c dsl h e =
    subst (λ s. AllHits q (if of_ok s == "hit" && c then indexed past ∷ [] else [])) e tt

length-answer :
    (b : Bool) (size : ℕ) → length (if b && ltb 0 size then indexed past ∷ [] else []) ≤ size
length-answer b size = ground arith

searched : IsSearched es "events" matches IsStored
searched = record {
  of_search = λ q dsl size sort w found h g.
      subst (λ s. AllHits q (found_of s)) g (All-answer q (matches q past) (ltb 0 size) dsl refl h);
  of_size = λ dsl size sort w found g.
      subst (λ s. length (found_of s) ≤ size) g (length-answer (dsl == "hit") size);
  full_id = λ e h. subst (λ x. len x.id ≡ 64) h refl;
  full_pub_key = λ e h. subst (λ x. len x.pub_key ≡ 64) h refl;
}

ids_to_delete-IsPastId_example : All (IsPastId IsStored articles new) (id64 ∷ [])
unfolding ids_to_delete build_dsl is_get_by_id
ids_to_delete-IsPastId_example =
    ids_to_delete-IsPastId IsStored articles new es "events" matches clause hit documented searched
      [] [] (id64 ∷ []) refl refl
