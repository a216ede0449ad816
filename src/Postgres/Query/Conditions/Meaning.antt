-- ===== src/Postgres/Query/Conditions/Meaning.antt =====
-- Which rows the conditions of QueryEvents select.
use Prim.Native.String.{len}
use package.text.Mathlib.Text.{starts_with}
use mathlib.Core.List.{append-nil, append_assoc}
use demedia_nostr.Prelude.{
  ℕ, ◌≤◌, String, Bool, true, false, ◌&&◌, ◌||◌, ◌==◌, Option, none, some, List, [], ◌∷◌, ◌++◌, any,
  length, length-append, ltb, nat_beq, nat_beq_iff, ℤ, int_beq, int_ltb, ◌≡◌, refl, ◌∙◌, sym, ap,
  arith, Bool-cases, inl, inr, if◌then◌else◌,
}
use demedia_nostr.Prelude.Map.{Map}
use demedia_nostr.Prelude.Hex.{Bytes, hex_encode, hex_decode}
use demedia_nostr.Nostr.{Event, Filter, Tag}
use demedia_nostr.Prelude.Matching.{is_one_of, none_or_any, starts_with_full}
use demedia_nostr.Postgres.Query.Text.{tag_query, ◌>>=◌}
use demedia_nostr.Postgres.Query.Bounds
use demedia_nostr.Postgres.Query.Bounds.{len-hex_encode}
use demedia_nostr.Postgres.Query.Conditions.{
  Condition, ids, authors, kinds, tag_values, since, until, tagvalues, decoded, push_bytes,
  some_bytes, prefix_conditions, kinds_conditions, tag_conditions, time_conditions, put_together,
  conditions,
}

-- A row under a condition, by the meaning of LIKE, IN, && of arrays, > and <.
unfoldable pub holds : Condition → Event → Bool
unfolding tagvalues
holds (ids bs) e = any (λ b. starts_with e.id (hex_encode b)) bs
holds (authors bs) e = any (λ b. starts_with e.pub_key (hex_encode b)) bs
holds (kinds ks) e = any (λ k. int_beq k e.kind) ks
holds (tag_values vs) e = any (λ v. is_one_of (tagvalues e.tags) v) vs
holds (since t) e = int_ltb t e.created_at
holds (until t) e = int_ltb e.created_at t

unfoldable pub all_hold : List Condition → Event → Bool
unfolding holds
all_hold [] e = true
all_hold (c ∷ cs) e = holds c e && all_hold cs e

-- What the conditions come to, with no regard to how a statement is made of a filter; it is less
-- than what NIP-01 has a filter ask for. A text names a value of 64 digits if it stands for the same
-- 32 bytes; a time is a bound that does not count itself; the values of all the filter's tags stand
-- together, whatever the names of the tags are.
abbrev pub names : Option Bytes → String → Bool
names none s = false
names (some bs) s = nat_beq (length bs) 32 && (hex_encode bs == s)

abbrev pub is_listed : Option (List String) → String → Bool
is_listed none s = true
is_listed (some values) s = any (λ v. names (hex_decode v) s) values

abbrev pub is_of_kind : Option (List ℤ) → ℤ → Bool
is_of_kind none kind = true
is_of_kind (some ks) kind = any (λ k. int_beq k kind) ks

abbrev pub all_full : Map String (List String) → Bool
all_full [] = true
all_full ((name, values) ∷ tags) = ltb 0 (length values) && all_full tags

abbrev pub is_tagged : Map String (List String) → List Tag → Bool
is_tagged wanted tags =
    all_full wanted && none_or_any (λ v. is_one_of (tagvalues tags) v) (Bounds.tag_values wanted)

abbrev pub is_after : Option ℤ → ℤ → Bool
is_after none t = true
is_after (some s) t = int_ltb s t

abbrev pub is_until : Option ℤ → ℤ → Bool
is_until none t = true
is_until (some u) t = int_ltb t u

unfoldable pub is_selected_by : Filter → Event → Bool
is_selected_by f e =
    is_listed f.ids e.id
    && (is_listed f.authors e.pub_key
        && (is_of_kind f.kinds e.kind
            && (is_tagged f.tags e.tags
                && (is_after f.since e.created_at && is_until f.until e.created_at))))

-- A filter that QueryEvents does not find too large.
abbrev pub UpTo {ℓ} : {A : Type ℓ} → ℕ → Option (List A) → Type 0
UpTo n none = Unit
UpTo n (some xs) = length xs ≤ n

pub record IsSmall (f : Filter) : Type 0 where
  pub ids : UpTo 500 f.ids
  pub authors : UpTo 500 f.authors
  pub kinds : UpTo 10 f.kinds
  pub tags : length (Bounds.tag_values f.tags) ≤ 10

-- No row is selected where the function returns early.
abbrev pub selects : Option (List Condition) → Event → Bool
selects none e = false
selects (some cs) e = all_hold cs e

all_hold-append :
    (xs ys : List Condition) (e : Event) → all_hold (xs ++ ys) e ≡ (all_hold xs e && all_hold ys e)
unfolding all_hold
all_hold-append [] ys e = refl
all_hold-append (x ∷ xs) ys e = ground (arith, all_hold-append xs ys e)

any-decoded :
    (s : String) (values : List String)
    → len s ≡ 64
    → any (λ b. starts_with s (hex_encode b)) (decoded values) ≡ is_listed (some values) s
unfolding decoded
any-decoded s [] h = refl
any-decoded s (v ∷ values) h = pushed (hex_decode v) (any-decoded s values h)
  where
    pushed :
        (o : Option Bytes)
        → any (λ b. starts_with s (hex_encode b)) (decoded values) ≡ is_listed (some values) s
        → any (λ b. starts_with s (hex_encode b)) (push_bytes o (decoded values))
          ≡ (names o s || is_listed (some values) s)
    pushed none ih = ih
    pushed (some bs) ih = elim (Bool-cases (nat_beq (length bs) 32)) [
      | inl t ↦
          let full : len s ≤ len (hex_encode bs) =
            omega (arith, len-hex_encode bs, (nat_beq_iff (length bs) 32).0 t, h) in
          rw (t, push_bytes) (ground (arith, ih, starts_with_full s (hex_encode bs) full))
      | inr t ↦ rw (t, push_bytes) (ground (arith, ih, t))
    ]

selects-prefix :
    (c : List Bytes → Condition) (o : Option (List String)) (s : String) (e : Event)
    → UpTo 500 o
    → len s ≡ 64
    → ((bs : List Bytes) → holds (c bs) e ≡ any (λ b. starts_with s (hex_encode b)) bs)
    → selects (prefix_conditions c o) e ≡ is_listed o s
unfolding all_hold
selects-prefix c none s e u l h = refl
selects-prefix c (some values) s e u l h =
    let b : ltb 500 (length values) ≡ false = ground arith in
    rw (b, prefix_conditions) (some_of (decoded values) ∙ any-decoded s values l)
  where
    some_of :
        (bs : List Bytes) → selects (some_bytes c bs) e ≡ any (λ b. starts_with s (hex_encode b)) bs
    some_of [] = refl
    some_of (b ∷ bs) = ground (arith, h (b ∷ bs))

selects-kinds :
    (o : Option (List ℤ)) (e : Event)
    → UpTo 10 o
    → selects (kinds_conditions o) e ≡ is_of_kind o e.kind
unfolding all_hold holds
selects-kinds none e u = refl
selects-kinds (some []) e u = refl
selects-kinds (some (k ∷ ks)) e u = ground arith

tag_query_full :
    (acc : List String) (tags : Map String (List String))
    → length (acc ++ Bounds.tag_values tags) ≤ 10
    → tag_query acc tags ≡ (if all_full tags then some (acc ++ Bounds.tag_values tags) else none)
unfolding tag_query
tag_query_full acc [] h = ap some (sym (append-nil acc))
tag_query_full acc ((name, values) ∷ tags) h =
    let same = append_assoc acc values (Bounds.tag_values tags) in
    let below : length ((acc ++ values) ++ Bounds.tag_values tags) ≤ 10 = rw same h in
    ground (
      arith,
      same,
      tag_query_full (acc ++ values) tags below,
      length-append (acc ++ values) (Bounds.tag_values tags),
    )

tag_conditions_lem :
    (vs : List String) (e : Event)
    → all_hold (tag_conditions vs) e ≡ none_or_any (λ v. is_one_of (tagvalues e.tags) v) vs
unfolding all_hold holds
tag_conditions_lem [] e = refl
tag_conditions_lem (v ∷ vs) e = ground arith

since_lem :
    (o : Option ℤ) (e : Event) → all_hold (time_conditions since o) e ≡ is_after o e.created_at
unfolding all_hold holds
since_lem none e = refl
since_lem (some t) e = ground arith

until_lem :
    (o : Option ℤ) (e : Event) → all_hold (time_conditions until o) e ≡ is_until o e.created_at
unfolding all_hold holds
until_lem none e = refl
until_lem (some t) e = ground arith

-- A block in the middle of the chain, where p is what the earlier conditions say of the row.
selects-then :
    (p rest : Bool) (o : Option (List Condition)) (k : List Condition → Option (List Condition))
    (e : Event)
    → ((cs : List Condition) → selects (k cs) e ≡ (p && (all_hold cs e && rest)))
    → selects (o >>= k) e ≡ (p && (selects o e && rest))
selects-then p rest none k e h = ground arith
selects-then p rest (some cs) k e h = h cs

module _ (f : Filter) (e : Event) where
  abbrev times_and_tags : Bool
  times_and_tags =
      is_tagged f.tags e.tags && (is_after f.since e.created_at && is_until f.until e.created_at)

  put_together_lem :
      (i a k : List Condition) (tags : List String)
      → all_hold (put_together f i a k tags) e ≡ (
          all_hold i e
          && (all_hold a e
              && (all_hold k e
                  && (none_or_any (λ v. is_one_of (tagvalues e.tags) v) tags
                      && (is_after f.since e.created_at && is_until f.until e.created_at)))))
  put_together_lem i a k tags =
      rw
        (
          all_hold-append, all_hold-append, all_hold-append, all_hold-append, all_hold-append,
          tag_conditions_lem, since_lem, until_lem,
        )
        refl

  selects_tags :
      (i a k : List Condition)
      → length (Bounds.tag_values f.tags) ≤ 10
      → selects (tag_query [] f.tags >>= (λ tags. some (put_together f i a k tags))) e
        ≡ (all_hold i e && (all_hold a e && (all_hold k e && times_and_tags)))
  selects_tags i a k h = rw (tag_query_full [] f.tags h) (elim (Bool-cases (all_full f.tags)) [
    | inl t ↦ rw t (put_together_lem i a k (Bounds.tag_values f.tags))
    | inr t ↦ rw t (ground arith)
  ])

and_assoc : (p q r : Bool) → ((p && q) && r) ≡ (p && (q && r))
and_assoc p q r = ground arith

-- A row with an ID and a public key of 64 characters satisfies the conditions that QueryEvents
-- makes of a filter exactly if it is selected as above, provided that the filter is not too large.
pub selects-conditions :
    (f : Filter) (e : Event)
    → IsSmall f
    → len e.id ≡ 64
    → len e.pub_key ≡ 64
    → selects (conditions f) e ≡ is_selected_by f e
unfolding conditions is_selected_by
selects-conditions f e small li lk =
    selects-then true _ (prefix_conditions ids f.ids) _ e (λ i.
      selects-then (all_hold i e) _ (prefix_conditions authors f.authors) _ e (λ a.
        selects-then (all_hold i e && all_hold a e) _ (kinds_conditions f.kinds) _ e
          (λ k. selects_tags f e i a k small.tags ∙ sym (and_assoc (all_hold i e) (all_hold a e) _))
        ∙ and_assoc (all_hold i e) (all_hold a e) _))
    ∙ rw
        (
          selects-prefix ids f.ids e.id e small.ids li (λ bs. unfold holds in refl),
          selects-prefix authors f.authors e.pub_key e small.authors lk
              (λ bs. unfold holds in refl),
          selects-kinds f.kinds e small.kinds,
        )
        refl
