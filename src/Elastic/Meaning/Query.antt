-- ===== src/Elastic/Meaning/Query.antt =====
-- The hits of the queries of buildDsl.
use Prim.Native.String.{len}
use package.text.Mathlib.Text.{starts_with}
use demedia_nostr.Prelude.{
  String, Bool, ◌&&◌, ◌==◌, Option, none, some, List, [], ◌∷◌, ◌++◌, map, ◌≡◌, refl, ◌∙◌, sym, ltb,
  ℤ, int_beq, arith, Bool-cases, inl, inr,
}
use demedia_nostr.Prelude.Map.{Map}
use demedia_nostr.Nostr.{Event, Filter}
use demedia_nostr.Elastic.Dsl.{
  text, int, Leaf, prefix, term, Clause, Dsl, values_of, prefix_leaf, prefix_filter, kinds_clause,
  tag_leaf, tags_clause, since_clause, until_clause, build_dsl,
}
use demedia_nostr.Prelude.Matching.{is_one_of, none_or_any, starts_with_full, any-map}
use demedia_nostr.Elastic.Meaning.{
  items, int_value, text_value, IsDocumented, is_since, is_until, has_tag_item, is_found_by,
}

module _ (matches : Dsl → Event → Bool) (clause : Clause → Event → Bool) (hit : Leaf → Event → Bool)
    (documented : IsDocumented matches clause hit) (e : Event) where
  matches-append : (xs ys : Dsl) → matches (xs ++ ys) e ≡ (matches xs e && matches ys e)
  matches-append [] ys = rw documented.must_nil refl
  matches-append (x ∷ xs) ys = ground (
    arith,
    documented.must_cons x (xs ++ ys) e,
    documented.must_cons x xs e,
    matches-append xs ys,
  )

  matches_one : (c : Clause) → matches (c ∷ []) e ≡ clause c e
  matches_one c = ground (arith, documented.must_cons c [] e, documented.must_nil e)

  -- A prefix filter on a field whose values have 64 characters.
  matches-prefix_filter :
      (field_name value : String) (values : List String)
      → ((v : String) → hit (prefix field_name v) e ≡ starts_with value v)
      → ((v : String) → hit (term field_name v) e ≡ (v == value))
      → len value ≡ 64
      → matches (prefix_filter field_name values) e ≡ none_or_any (λ v. starts_with value v) values
  unfolding prefix_filter
  matches-prefix_filter field_name value [] p t l = documented.must_nil e
  matches-prefix_filter field_name value (v ∷ values) p t l =
      matches_one _
      ∙ (documented.should_clause (prefix_leaf field_name v) (map (prefix_leaf field_name) values) e
          ∙ any-map (λ x. hit x e) (λ v. starts_with value v) (prefix_leaf field_name) (v ∷ values)
              one)
    where
      one : (v : String) → hit (prefix_leaf field_name v) e ≡ starts_with value v
      one v = elim (Bool-cases (ltb (len v) 64)) [
        | inl h ↦ rw (h, prefix_leaf) (p v)
        | inr h ↦ rw (h, prefix_leaf) (t v ∙ sym (starts_with_full value v (ground (arith, h))))
      ]

  matches-kinds_clause :
      (kinds : List ℤ) → matches (kinds_clause kinds) e ≡ none_or_any (λ k. int_beq k e.kind) kinds
  unfolding kinds_clause
  matches-kinds_clause [] = documented.must_nil e
  matches-kinds_clause (k ∷ kinds) =
      matches_one _
      ∙ (documented.leaf_clause _ e
          ∙ (documented.terms_kind (map int (k ∷ kinds)) e
              ∙ any-map (int_value e.kind) (λ x. int_beq x e.kind) int (k ∷ kinds) (λ x. refl)))

  matches-tags_clause :
      (tags : Map String (List String))
      → matches (tags_clause tags) e ≡ none_or_any (has_tag_item e.tags) tags
  unfolding tags_clause
  matches-tags_clause [] = documented.must_nil e
  matches-tags_clause (t ∷ tags) =
      matches_one _
      ∙ (documented.should_clause (tag_leaf t) (map tag_leaf tags) e
          ∙ any-map (λ x. hit x e) (has_tag_item e.tags) tag_leaf (t ∷ tags) one)
    where
      one : (t : String × List String) → hit (tag_leaf t) e ≡ has_tag_item e.tags t
      one (name, values) =
          documented.terms_tags (map text (values ++ (name ∷ []))) e
          ∙ any-map (text_value (items e.tags)) (is_one_of (items e.tags)) text
              (values ++ (name ∷ [])) (λ x. refl)

  matches-since_clause : (o : Option ℤ) → matches (since_clause o) e ≡ is_since o e.created_at
  matches-since_clause none = documented.must_nil e
  matches-since_clause (some t) =
      matches_one _ ∙ (documented.leaf_clause _ e ∙ documented.gte_created_at t e)

  matches-until_clause : (o : Option ℤ) → matches (until_clause o) e ≡ is_until o e.created_at
  matches-until_clause none = documented.must_nil e
  matches-until_clause (some t) =
      matches_one _ ∙ (documented.leaf_clause _ e ∙ documented.lte_created_at t e)

  pub matches-build_dsl :
      (f : Filter) → len e.id ≡ 64 → len e.pub_key ≡ 64 → matches (build_dsl f) e ≡ is_found_by f e
  unfolding build_dsl is_found_by
  matches-build_dsl f i k =
      rw
        (
          matches-append,
          matches-prefix_filter "event.id" e.id (values_of f.ids) (λ v. documented.prefix_id v e)
              (λ v. documented.term_id v e) i,
          matches-append,
          matches-prefix_filter "event.pubkey" e.pub_key (values_of f.authors)
              (λ v. documented.prefix_pubkey v e) (λ v. documented.term_pubkey v e) k,
          matches-append,
          matches-kinds_clause (values_of f.kinds),
          matches-append,
          matches-tags_clause f.tags,
          matches-append,
          matches-since_clause f.since,
          matches-until_clause f.until,
        )
        refl
