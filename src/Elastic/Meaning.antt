-- ===== src/Elastic/Meaning.antt =====
-- What the queries of buildDsl find, by the meaning that Elasticsearch documents.
pub mod Query
use Prim.Native.String.{len}
use Prim.Native.String
use Prim.Native.String.append
use package.text.Mathlib.Text.{starts_with}
use package.text.Mathlib.TextEquality.{starts_with_iff}
use demedia_nostr.Prelude.{
  ℕ, ◌≤◌, ◌+◌, ◌*◌, ◌<◌, String, Bool, true, false, ◌&&◌, ◌||◌, ◌==◌, eq_iff, Option, none, some,
  List, [], ◌∷◌, ◌++◌, map, any, ◌≡◌, refl, ◌∙◌, ap, sym, ltb, ℤ, pos, negsuc, int_leb, int_beq,
  if◌then◌else◌, arith, Bool-cases, inl, inr, ◌⊎◌,
}
use Prim.Native.String.len
use package.text.Mathlib.TextPositions.{len-append, len_utf8-pos}
use package.text.Mathlib.TextLemmas.{append-nil}
use demedia_nostr.Prelude.Text.{◌<>◌}
use demedia_nostr.Prelude.Map.{Map}
use demedia_nostr.Nostr.{Event, Filter, Tag}
use demedia_nostr.Prelude.Matching.{is_one_of, none_or_any}
use demedia_nostr.Elastic.Dsl.{
  Instant, at_unix, Value, text, int, Leaf, prefix, term, terms, gte, lte, Clause, leaf, should,
  Dsl, values_of, prefix_leaf, prefix_filter, kinds_clause, tag_leaf, tags_clause, since_clause,
  until_clause, build_dsl,
}

-- Every item of every tag, as the index keeps them in one field.
abbrev pub items : List Tag → List String
items [] = []
items (t ∷ tags) = t ++ items tags

-- The milliseconds since 1970 of a time in whole seconds.
abbrev pub millis : Instant → ℤ
millis (at_unix (pos n)) = pos (1000 * n)
millis (at_unix (negsuc n)) = negsuc (1000 * n + 999)

abbrev pub int_value : ℤ → Value → Bool
int_value k (text s) = false
int_value k (int i) = int_beq i k

abbrev pub text_value : List String → Value → Bool
text_value xs (text s) = is_one_of xs s
text_value xs (int i) = false

-- What the reference of Elasticsearch says of the queries at the fields of the index's mapping,
-- for `matches`, whether a document with an event is a hit of a query: a bool query wants all that
-- it must and, if it has no other clause, one of what it should; prefix, term and terms compare the
-- values of a keyword or an integer, any of them in an array; range compares dates. The mapping
-- gives the date no format, and then a date that is written as a text, as json writes a time.Time,
-- is the instant it says, while one that is written as a number, as a document has the time of its
-- event in seconds, counts milliseconds.
pub record IsDocumented (matches : Dsl → Event → Bool) (clause : Clause → Event → Bool)
    (hit : Leaf → Event → Bool) : Type 0 where
  pub must_nil : (e : Event) → matches [] e ≡ true
  pub must_cons :
      (c : Clause) (cs : Dsl) (e : Event) → matches (c ∷ cs) e ≡ (clause c e && matches cs e)
  pub leaf_clause : (l : Leaf) (e : Event) → clause (leaf l) e ≡ hit l e
  pub should_clause :
      (l : Leaf) (ls : List Leaf) (e : Event)
      → clause (should (l ∷ ls)) e ≡ any (λ x. hit x e) (l ∷ ls)
  pub prefix_id : (v : String) (e : Event) → hit (prefix "event.id" v) e ≡ starts_with e.id v
  pub term_id : (v : String) (e : Event) → hit (term "event.id" v) e ≡ (v == e.id)
  pub prefix_pubkey :
      (v : String) (e : Event) → hit (prefix "event.pubkey" v) e ≡ starts_with e.pub_key v
  pub term_pubkey : (v : String) (e : Event) → hit (term "event.pubkey" v) e ≡ (v == e.pub_key)
  pub terms_kind :
      (vs : List Value) (e : Event) → hit (terms "event.kind" vs) e ≡ any (int_value e.kind) vs
  pub terms_tags :
      (vs : List Value) (e : Event)
      → hit (terms "event.tags" vs) e ≡ any (text_value (items e.tags)) vs
  pub gte_created_at :
      (t : ℤ) (e : Event)
      → hit (gte "event.created_at" (at_unix t)) e ≡ int_leb (millis (at_unix t)) e.created_at
  pub lte_created_at :
      (t : ℤ) (e : Event)
      → hit (lte "event.created_at" (at_unix t)) e ≡ int_leb e.created_at (millis (at_unix t))

-- What the queries come to, which is less than what NIP-01 has a filter ask for. A time of a filter
-- in milliseconds is a bound, itself included, on the time of the event in seconds.
abbrev pub is_since : Option ℤ → ℤ → Bool
is_since none t = true
is_since (some s) t = int_leb (millis (at_unix s)) t

abbrev pub is_until : Option ℤ → ℤ → Bool
is_until none t = true
is_until (some u) t = int_leb t (millis (at_unix u))

-- A tag of the filter as the query has it: any item of any tag of the event, also a name, is one of
-- the values or the name of the filter's tag.
abbrev pub has_tag_item : List Tag → String × List String → Bool
has_tag_item tags (name, values) = any (λ v. is_one_of (items tags) v) (values ++ (name ∷ []))

-- An event under each of: a listed ID and a listed author is a prefix of its own, or its own; its
-- kind is listed; it has an item as one of the tags has it; its time is within the bounds. A list
-- that is not there or empty puts it under nothing.
unfoldable pub is_found_by : Filter → Event → Bool
is_found_by f e =
    none_or_any (λ v. starts_with e.id v) (values_of f.ids)
    && (none_or_any (λ v. starts_with e.pub_key v) (values_of f.authors)
        && (none_or_any (λ k. int_beq k e.kind) (values_of f.kinds)
            && (none_or_any (has_tag_item e.tags) f.tags
                && (is_since f.since e.created_at && is_until f.until e.created_at))))
