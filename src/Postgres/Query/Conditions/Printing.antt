-- ===== src/Postgres/Query/Conditions/Printing.antt =====
-- The statement of QueryEvents is the printed form of its conditions.
use mathlib.Core.List.{append-nil, append_assoc}
use mathlib.Core.Option.{some-injective}
use demedia_nostr.Prelude.{
  String, Option, none, some, List, [], ◌∷◌, ◌++◌, map, length, ltb, nat_beq, ℤ, ◌≡◌, refl, ◌∙◌,
  sym, ap, arith, Bool-cases, Option-cases, inl, inr,
}
use demedia_nostr.Prelude.Text.{◌<>◌, join}
use demedia_nostr.Prelude.Hex.{Bytes, hex_decode}
use demedia_nostr.Nostr.{Filter}
use demedia_nostr.Postgres.Query.Text.{
  Param, text, int, like, push_like, likes, any_like, prefix_block, kinds_block, tag_query,
  tags_block, time_block, time_param, assemble, statement,
}
use demedia_nostr.Postgres.Query.Conditions.{
  Condition, ids, authors, kinds, since, until, print, params_of, all_params, printed, decoded,
  push_bytes, some_bytes, prefix_conditions, kinds_conditions, tag_conditions, time_conditions,
  put_together, conditions,
}

likes-decoded :
    (column : String) (values : List String)
    → likes column values ≡ map (like column) (decoded values)
unfolding likes decoded
likes-decoded column [] = refl
likes-decoded column (v ∷ values) = pushed (hex_decode v) (likes-decoded column values)
  where
    pushed :
        (o : Option Bytes)
        → likes column values ≡ map (like column) (decoded values)
        → push_like column o (likes column values)
          ≡ map (like column) (push_bytes o (decoded values))
    pushed none h = h
    pushed (some bs) h = elim (Bool-cases (nat_beq (length bs) 32)) [
      | inl t ↦ rw (t, push_like) (ap (λ (ls : List String). like column bs ∷ ls) h)
      | inr t ↦ rw (t, push_like) h
    ]

abbrev prints : Option (List Condition) → Option (List String)
prints none = none
prints (some cs) = some (map print cs)

prefix_block-prints :
    (column : String) (c : List Bytes → Condition) (o : Option (List String))
    → ((bs : List Bytes) → print (c bs) ≡ "(" <> join (map (like column) bs) " OR " <> ")")
    → prefix_block column o ≡ prints (prefix_conditions c o)
unfolding prefix_block
prefix_block-prints column c none h = refl
prefix_block-prints column c (some values) h = elim (Bool-cases (ltb 500 (length values))) [
  | inl t ↦ rw (t, prefix_block) refl
  | inr t ↦ rw (t, prefix_block) (rw (likes-decoded column values) (any (decoded values)))
]
  where
    any : (bs : List Bytes) → any_like (map (like column) bs) ≡ prints (some_bytes c bs)
    any [] = refl
    any (b ∷ bs) = ap (λ s. some (s ∷ [])) (sym (h (b ∷ bs)))

kinds_block-prints : (o : Option (List ℤ)) → kinds_block o ≡ prints (kinds_conditions o)
unfolding kinds_block print
kinds_block-prints none = refl
kinds_block-prints (some ks) = ground arith

tags_block-print : (tags : List String) → tags_block tags ≡ map print (tag_conditions tags)
unfolding tags_block print
tags_block-print [] = refl
tags_block-print (v ∷ vs) = refl

time_block-print :
    (s : String) (c : ℤ → Condition) (o : Option ℤ)
    → ((t : ℤ) → print (c t) ≡ s)
    → time_block s o ≡ map print (time_conditions c o)
time_block-print s c none h = refl
time_block-print s c (some t) h = ap (λ x. x ∷ []) (sym (h t))

map-print-append : (xs ys : List Condition) → map print (xs ++ ys) ≡ map print xs ++ map print ys
map-print-append [] ys = refl
map-print-append (x ∷ xs) ys = ap (λ l. print x ∷ l) (map-print-append xs ys)

all_params-append :
    (xs ys : List Condition) → all_params (xs ++ ys) ≡ all_params xs ++ all_params ys
unfolding all_params
all_params-append [] ys = refl
all_params-append (x ∷ xs) ys =
    ap (λ l. params_of x ++ l) (all_params-append xs ys)
    ∙ sym (append_assoc (params_of x) (all_params xs) (all_params ys))

no_params-prefix :
    (c : List Bytes → Condition) (o : Option (List String)) (cs : List Condition)
    → ((bs : List Bytes) → params_of (c bs) ≡ [])
    → prefix_conditions c o ≡ some cs
    → all_params cs ≡ []
unfolding all_params
no_params-prefix c none cs h e = rw (← some-injective _ _ e) refl
no_params-prefix c (some values) cs h e = elim (Bool-cases (ltb 500 (length values))) [
  | inl t ↦ absurd (ground (arith, t))
  | inr t ↦ some_of (decoded values) (ground (arith, t))
]
  where
    some_of : (bs : List Bytes) → some_bytes c bs ≡ some cs → all_params cs ≡ []
    some_of [] g = absurd (ground (arith, g))
    some_of (b ∷ bs) g =
        rw (← some-injective _ _ g) (append-nil (params_of (c (b ∷ bs))) ∙ h (b ∷ bs))

no_params-kinds :
    (o : Option (List ℤ)) (cs : List Condition) → kinds_conditions o ≡ some cs → all_params cs ≡ []
unfolding all_params params_of
no_params-kinds none cs e = rw (← some-injective _ _ e) refl
no_params-kinds (some ks) cs e = elim (Bool-cases (ltb 10 (length ks))) [
  | inl t ↦ absurd (ground (arith, t))
  | inr t ↦ elim (Bool-cases (nat_beq (length ks) 0)) [
    | inl u ↦ absurd (ground (arith, t, u))
    | inr u ↦ rw (← some-injective (kinds ks ∷ []) cs (ground (arith, t, u))) refl
  ]
]

all_params-tag_conditions : (tags : List String) → all_params (tag_conditions tags) ≡ map text tags
unfolding all_params params_of
all_params-tag_conditions [] = refl
all_params-tag_conditions (v ∷ vs) = append-nil (map text (v ∷ vs))

all_params-time :
    (c : ℤ → Condition) (o : Option ℤ)
    → ((t : ℤ) → params_of (c t) ≡ int t ∷ [])
    → all_params (time_conditions c o) ≡ time_param o
unfolding all_params
all_params-time c none h = refl
all_params-time c (some t) h = rw (h t) refl

-- The texts of all conditions, and their parameters.
texts-put_together :
    (f : Filter) (i a k : List Condition) (tags : List String)
    → map print i
        ++ (map print a
            ++ (map print k
                ++ (tags_block tags
                    ++ (time_block "created_at > ?" f.since
                        ++ time_block "created_at < ?" f.until))))
      ≡ map print (put_together f i a k tags)
unfolding print
texts-put_together f i a k tags = simp (
  map-print-append,
  tags_block-print tags,
  time_block-print "created_at > ?" since f.since (λ t. refl),
  time_block-print "created_at < ?" until f.until (λ t. refl),
)

params-put_together :
    (f : Filter) (i a k : List Condition) (tags : List String)
    → all_params i ≡ []
    → all_params a ≡ []
    → all_params k ≡ []
    → all_params (put_together f i a k tags)
      ≡ map text tags ++ (time_param f.since ++ time_param f.until)
unfolding params_of
params-put_together f i a k tags hi ha hk = simp (
  all_params-append,
  hi,
  ha,
  hk,
  all_params-tag_conditions tags,
  all_params-time since f.since (λ t. refl),
  all_params-time until f.until (λ t. refl),
)

assemble-print :
    (f : Filter) (i a k : List Condition) (tags : List String)
    → all_params i ≡ []
    → all_params a ≡ []
    → all_params k ≡ []
    → assemble f (map print i) (map print a) (map print k) tags
      ≡ printed f.limit (put_together f i a k tags)
unfolding assemble
assemble-print f i a k tags hi ha hk =
    rw (texts-put_together f i a k tags, params-put_together f i a k tags hi ha hk)
      (simp (append_assoc))

abbrev pub printed_of : ℤ → Option (List Condition) → Option (String × List Param)
printed_of limit none = none
printed_of limit (some cs) = some (printed limit cs)

pub statement-conditions : (f : Filter) → statement f ≡ printed_of f.limit (conditions f)
unfolding statement conditions print params_of
statement-conditions f =
    rw
      (
        prefix_block-prints "id" ids f.ids (λ bs. refl),
        prefix_block-prints "pubkey" authors f.authors (λ bs. refl),
        kinds_block-prints f.kinds,
      )
      (elim (Option-cases (prefix_conditions ids f.ids)) [
        | inl e ↦ rw e refl
        | inr (i, ei) ↦ elim (Option-cases (prefix_conditions authors f.authors)) [
          | inl e ↦ rw (ei, e) refl
          | inr (a, ea) ↦ elim (Option-cases (kinds_conditions f.kinds)) [
            | inl e ↦ rw (ei, ea, e) refl
            | inr (k, ek) ↦ elim (Option-cases (tag_query [] f.tags)) [
              | inl e ↦ rw (ei, ea, ek, e) refl
              | inr (tags, et) ↦
                  rw (ei, ea, ek, et)
                    (ap some (
                      assemble-print f i a k tags (no_params-prefix ids f.ids i (λ bs. refl) ei)
                        (no_params-prefix authors f.authors a (λ bs. refl) ea)
                        (no_params-kinds f.kinds k ek)))
            ]
          ]
        ]
      ])
