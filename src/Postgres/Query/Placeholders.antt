-- ===== src/Postgres/Query/Placeholders.antt =====
-- Each placeholder of the statement has its parameter.
use mathlib.Core.Path.{subst}
use mathlib.Core.Option.{some-injective}
use demedia_nostr.Prelude.{
  ◌≡◌, refl, String, Option, none, some, List, [], ◌∷◌, ◌++◌, map, length, length-append,
  length-map, arith, ltb, ℤ, Bool-cases, inl, inr,
}
use demedia_nostr.Prelude.Text.{◌<>◌, join, itoa}
use demedia_nostr.Nostr.{Filter}
use demedia_nostr.Postgres.Query.Text.{
  Param, text, int, likes, prefix_block, kinds_block, tag_query, tags_block, time_block, time_param,
  or_true, limit_param, head_text, tail_text, assemble, statement, ◌>>=◌,
}
use demedia_nostr.Postgres.Query.Marks.{
  marks, marks-append, marks-itoa, marks-join, total, total-append, total-likes, total-any_like,
}

total-prefix_block :
    (column : String) (o : Option (List String)) (cs : List String)
    → marks column ≡ 0
    → prefix_block column o ≡ some cs
    → total cs ≡ 0
unfolding prefix_block total
total-prefix_block column none cs h e = rw (← some-injective _ _ e)
total-prefix_block column (some values) cs h e = elim (Bool-cases (ltb 500 (length values))) [
  | inl t ↦ absurd (ground (arith, t))
  | inr t ↦
      total-any_like (likes column values) cs (total-likes column values h) (ground (arith, t))
]

total-itoa : (ks : List ℤ) → total (map itoa ks) ≡ 0
unfolding total
total-itoa [] = refl
total-itoa (k ∷ ks) = omega (arith, marks-itoa k, total-itoa ks)

total-kinds_block :
    (o : Option (List ℤ)) (cs : List String) → kinds_block o ≡ some cs → total cs ≡ 0
unfolding kinds_block total marks
total-kinds_block none cs e = rw (← some-injective _ _ e)
total-kinds_block (some ks) cs e = ground (
  arith,
  marks-append "kind IN (" (join (map itoa ks) "," <> ")"),
  marks-append (join (map itoa ks) ",") ")",
  marks-join (map itoa ks) "," refl,
  total-itoa ks,
)

total-marks : (vs : List String) → total (map (λ _. "?") vs) ≡ length vs
unfolding total marks
total-marks [] = refl
total-marks (v ∷ vs) = omega (arith, total-marks vs)

total-tags_block : (vs : List String) → total (tags_block vs) ≡ length vs
unfolding tags_block total marks
total-tags_block [] = refl
total-tags_block (v ∷ vs) =
    let qs : List String = map (λ _. "?") (v ∷ vs) in
    omega (
      arith,
      marks-append "tagvalues && ARRAY[" (join qs "," <> "]"),
      marks-append (join qs ",") "]",
      marks-join qs "," refl,
      total-marks (v ∷ vs),
    )

total-time_block :
    (condition : String) (o : Option ℤ)
    → marks condition ≡ 1
    → total (time_block condition o) ≡ length (time_param o)
unfolding total
total-time_block condition none h = refl
total-time_block condition (some t) h = omega arith

total-or_true : (cs : List String) → total (or_true cs) ≡ total cs
unfolding total marks
total-or_true [] = refl
total-or_true (c ∷ cs) = refl

-- The four blocks of a statement that is sent.
pub record Blocks (f : Filter) (r : String × List Param) : Type 0 where
  pub ids : List String
  pub authors : List String
  pub kinds : List String
  pub tags : List String
  pub ids_eq : prefix_block "id" f.ids ≡ some ids
  pub authors_eq : prefix_block "pubkey" f.authors ≡ some authors
  pub kinds_eq : kinds_block f.kinds ≡ some kinds
  pub tags_eq : tag_query [] f.tags ≡ some tags
  pub assembled : assemble f ids authors kinds tags ≡ r

pub statement_inv : (f : Filter) (r : String × List Param) → statement f ≡ some r → Blocks f r
unfolding statement
statement_inv f r =
    go (prefix_block "id" f.ids) (prefix_block "pubkey" f.authors) (kinds_block f.kinds)
      (tag_query [] f.tags) refl refl refl refl
  where
    go :
        (a b c d : Option (List String))
        → prefix_block "id" f.ids ≡ a
        → prefix_block "pubkey" f.authors ≡ b
        → kinds_block f.kinds ≡ c
        → tag_query [] f.tags ≡ d
        → (a >>= λ x. b >>= λ y. c >>= λ z. d >>= λ w. some (assemble f x y z w)) ≡ some r
        → Blocks f r
    go none b c d p q k t e = cc
    go (some x) none c d p q k t e = cc
    go (some x) (some y) none d p q k t e = cc
    go (some x) (some y) (some z) none p q k t e = cc
    go (some x) (some y) (some z) (some w) p q k t e = record {
      ids = x;
      authors = y;
      kinds = z;
      tags = w;
      ids_eq = p;
      authors_eq = q;
      kinds_eq = k;
      tags_eq = t;
      assembled = some-injective _ _ e;
    }

marks-assemble :
    (f : Filter) (ids authors kinds tags : List String)
    → total ids ≡ 0
    → total authors ≡ 0
    → total kinds ≡ 0
    → marks (assemble f ids authors kinds tags).0 ≡ length (assemble f ids authors kinds tags).1
unfolding assemble marks
marks-assemble f ids authors kinds tags p q r =
    let since = time_block "created_at > ?" f.since in
    let until = time_block "created_at < ?" f.until in
    let rest = kinds ++ (tags_block tags ++ (since ++ until)) in
    let conditions = ids ++ (authors ++ rest) in
    let last : List Param = int (limit_param f.limit) ∷ [] in
    omega (
      arith,
      marks-append head_text (join (or_true conditions) " AND " <> tail_text),
      marks-append (join (or_true conditions) " AND ") tail_text,
      marks-join (or_true conditions) " AND " refl,
      total-or_true conditions,
      total-append ids (authors ++ rest),
      total-append authors rest,
      total-append kinds (tags_block tags ++ (since ++ until)),
      total-append (tags_block tags) (since ++ until),
      total-append since until,
      total-tags_block tags,
      total-time_block "created_at > ?" f.since refl,
      total-time_block "created_at < ?" f.until refl,
      length-append (map text tags) (time_param f.since ++ (time_param f.until ++ last)),
      length-append (time_param f.since) (time_param f.until ++ last),
      length-append (time_param f.until) last,
      length-map tags text,
    )

-- Whatever the filter, a statement that is sent to the database has as many placeholders as it
-- has parameters.
pub marks-statement :
    (f : Filter) (s : String) (params : List Param)
    → statement f ≡ some (s, params)
    → marks s ≡ length params
unfolding marks
marks-statement f s params e =
    let b = statement_inv f (s, params) e in
    let m : marks (assemble f b.ids b.authors b.kinds b.tags).0
        ≡ length (assemble f b.ids b.authors b.kinds b.tags).1 =
      marks-assemble f b.ids b.authors b.kinds b.tags
        (total-prefix_block "id" f.ids b.ids refl b.ids_eq)
        (total-prefix_block "pubkey" f.authors b.authors refl b.authors_eq)
        (total-kinds_block f.kinds b.kinds b.kinds_eq) in
    subst (λ (r : String × List Param). marks r.0 ≡ length r.1) b.assembled m
