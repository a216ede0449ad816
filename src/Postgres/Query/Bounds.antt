-- ===== src/Postgres/Query/Bounds.antt =====
-- Which filters reach the database, and what of their texts does.
use Prim.Native.Nat.{◌/◌, ◌%◌}
use Prim.Native.String.{len}
use package.text.Mathlib.TextPositions.{len-append}
use mathlib.Core.Path.{subst}
use mathlib.Core.List.{append-nil, append_assoc}
use mathlib.Core.Option.{some-injective}
use demedia_nostr.Prelude.{
  map, sym, length-map, ℕ, ◌*◌, ◌≤◌, ◌<◌, ◌≡◌, refl, ap, ◌∙◌, String, Bool, true, false, ◌||◌,
  Option, none, some, List, [], ◌∷◌, ◌++◌, length, length-append, All, arith, nat_beq, nat_beq_iff,
  if◌then◌else◌, ℤ, pos, negsuc, int_ltb, Bool-cases, inl, inr,
}
use demedia_nostr.Prelude.Map.{Map}
use demedia_nostr.Prelude.Text.{◌<>◌}
use demedia_nostr.Prelude.Hex.{
  Bytes, hex_digit, hex_encode, hex_decode, all_codes, is_hex_code, hex_encode-hex,
}
use demedia_nostr.Nostr.{Filter}
use demedia_nostr.Postgres.Query.Text.{
  Param, text, int, push_like, likes, prefix_block, kinds_block, tag_query, time_param, limit_param,
  assemble, statement,
}
use demedia_nostr.Postgres.Query.Placeholders.{statement_inv}

-- A test of a column against 64 hexadecimal digits, and nothing else in the quotes.
abbrev pub IsLike : String → String → Type 0
IsLike column s =
    (h : String) × (s ≡ column <> " LIKE '" <> h <> "%'")
    × (all_codes is_hex_code h ≡ true)
    × (len h ≡ 64)

len-if : (b : Bool) (s t : String) → len (if b then s else t) ≡ (if b then len s else len t)
len-if true s t = refl
len-if false s t = refl

if_one : (b : Bool) → ◌≡◌ {A = ℕ} (if b then 1 else 1) 1
if_one true = refl
if_one false = refl

len-hex_digit : (n : ℕ) → len (hex_digit n) ≡ 1
unfolding hex_digit
len-hex_digit n = simp (len-if, if_one)

pub len-hex_encode : (bs : Bytes) → len (hex_encode bs) ≡ 2 * length bs
unfolding hex_encode
len-hex_encode [] = refl
len-hex_encode (b ∷ bs) = omega (
  arith,
  len-append (hex_digit (b / 16 % 16)) (hex_digit (b % 16) <> hex_encode bs),
  len-append (hex_digit (b % 16)) (hex_encode bs),
  len-hex_digit (b / 16 % 16),
  len-hex_digit (b % 16),
  len-hex_encode bs,
)

-- Whatever texts a client gives as ids or authors, each condition that is made of them is a test
-- of the column against 64 hexadecimal digits: no other character of theirs reaches the statement.
pub likes-IsLike :
    (column : String) (values : List String) → All (IsLike column) (likes column values)
unfolding likes
likes-IsLike column [] = tt
likes-IsLike column (v ∷ values) =
    pushed (hex_decode v) (likes column values) (likes-IsLike column values)
  where
    pushed :
        (o : Option Bytes) (ls : List String)
        → All (IsLike column) ls
        → All (IsLike column) (push_like column o ls)
    pushed none ls a = a
    pushed (some bs) ls a = elim (Bool-cases (nat_beq (length bs) 32)) [
      | inl t ↦
          rw (t, push_like)
            (
              (
                hex_encode bs,
                refl,
                hex_encode-hex bs,
                omega (arith, len-hex_encode bs, (nat_beq_iff (length bs) 32).0 t),
              ),
              a,
            )
      | inr t ↦ rw (t, push_like) a
    ]

-- The values of all tags, in the order of the loop.
abbrev pub tag_values : Map String (List String) → List String
tag_values [] = []
tag_values ((name, values) ∷ tags) = values ++ tag_values tags

-- A list that stands in the filter has between one and so many elements.
abbrev pub AtMost {ℓ} : {A : Type ℓ} → ℕ → Option (List A) → Type 0
AtMost n none = Unit
AtMost n (some xs) = (0 < length xs) × (length xs ≤ n)

pub record IsAdmitted (f : Filter) (params : List Param) : Type 0 where
  pub ids : AtMost 500 f.ids
  pub authors : AtMost 500 f.authors
  pub kinds : AtMost 10 f.kinds
  pub tags : length (tag_values f.tags) ≤ 10
  pub none_empty : All (λ (t : String × List String). 0 < length t.1) f.tags
  pub limit :
      (ps : List Param) × (n : ℕ) × (params ≡ ps ++ (int (pos n) ∷ [])) × (0 < n) × (n ≤ 100)
  pub few : length params ≤ 13

prefix_block-AtMost :
    (column : String) (o : Option (List String)) (cs : List String)
    → prefix_block column o ≡ some cs
    → AtMost 500 o
unfolding prefix_block likes
prefix_block-AtMost column none cs e = tt
prefix_block-AtMost column (some []) cs e = cc
prefix_block-AtMost column (some (v ∷ vs)) cs e = ground arith

kinds_block-AtMost :
    (o : Option (List ℤ)) (cs : List String) → kinds_block o ≡ some cs → AtMost 10 o
unfolding kinds_block
kinds_block-AtMost none cs e = tt
kinds_block-AtMost (some ks) cs e = ground arith

tag_query_bounds :
    (acc : List String) (tags : Map String (List String)) (vs : List String)
    → length acc ≤ 10
    → tag_query acc tags ≡ some vs
    → (vs ≡ acc ++ tag_values tags)
      × (length vs ≤ 10)
      × All (λ (t : String × List String). 0 < length t.1) tags
unfolding tag_query
tag_query_bounds acc [] vs h e =
    let same : vs ≡ acc = sym (some-injective _ _ e) in (same ∙ sym (append-nil acc), rw same h, tt)
tag_query_bounds acc ((name, values) ∷ tags) vs h e =
    let below : length (acc ++ values) ≤ 10 = ground arith in
    let rest = tag_query_bounds (acc ++ values) tags vs below (ground arith) in
    (rest.0 ∙ append_assoc acc values (tag_values tags), rest.1, (ground arith, rest.2))

length-time_param : (o : Option ℤ) → length (time_param o) ≤ 1
length-time_param none = omega arith
length-time_param (some t) = omega arith

limit_param_bounds : (l : ℤ) → (n : ℕ) × (limit_param l ≡ pos n) × (0 < n) × (n ≤ 100)
unfolding limit_param
limit_param_bounds (negsuc k) = (100, refl, omega arith, omega arith)
limit_param_bounds (pos k) =
    elim (Bool-cases (int_ltb (pos k) (pos 1) || int_ltb (pos 100) (pos k))) [
      | inl t ↦ (100, rw (t, limit_param) refl, omega arith, omega arith)
      | inr t ↦ (k, rw (t, limit_param) refl, ground arith, ground arith)
    ]

-- If a statement is sent, then the filter's ids and authors are at most 500 each and its kinds at
-- most 10, none of these lists is there and empty, no tag has an empty list, and the tag values
-- are at most 10 together; there are at most 13 parameters, and the last is a limit from 1 to 100.
pub statement-IsAdmitted :
    (f : Filter) (s : String) (params : List Param)
    → statement f ≡ some (s, params)
    → IsAdmitted f params
unfolding assemble
statement-IsAdmitted f s params e =
    let b = statement_inv f (s, params) e in
    let t = tag_query_bounds [] f.tags b.tags (omega arith) b.tags_eq in
    let (n, is_n, one, hundred) = limit_param_bounds f.limit in
    let front = map text b.tags ++ (time_param f.since ++ time_param f.until) in
    let shape : params ≡ front ++ (int (pos n) ∷ []) =
      sym (ap (λ (r : String × List Param). r.1) b.assembled) ∙ simp (is_n, append_assoc) in
    record {
      ids = prefix_block-AtMost "id" f.ids b.ids b.ids_eq;
      authors = prefix_block-AtMost "pubkey" f.authors b.authors b.authors_eq;
      kinds = kinds_block-AtMost f.kinds b.kinds b.kinds_eq;
      tags = subst (λ vs. length vs ≤ 10) t.0 t.1;
      none_empty = t.2;
      limit = (front, n, shape, one, hundred);
      few = omega (
        arith,
        ap (λ (ps : List Param). length ps) shape,
        length-append front (int (pos n) ∷ []),
        length-append (map text b.tags) (time_param f.since ++ time_param f.until),
        length-append (time_param f.since) (time_param f.until),
        length-map b.tags text,
        length-time_param f.since,
        length-time_param f.until,
        t.1,
      );
    }
