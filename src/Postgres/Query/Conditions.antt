-- ===== src/Postgres/Query/Conditions.antt =====
-- The statement of QueryEvents as data: its conditions, how they are printed, and what they say of
-- a row by the meaning of SQL.
pub mod Meaning
pub mod Printing
pub mod Answers
use Prim.Native.String.{count}
use package.text.Mathlib.Text.{starts_with}
use demedia_nostr.Prelude.{
  ℕ, String, Bool, true, false, ◌&&◌, ◌==◌, Option, none, some, List, [], ◌∷◌, ◌++◌, map, any,
  length, ltb, nat_beq, ℤ, int_beq, int_ltb, if◌then◌else◌,
}
use demedia_nostr.Prelude.Text.{◌<>◌, join, itoa}
use demedia_nostr.Prelude.Hex.{Bytes, hex_encode, hex_decode}
use demedia_nostr.Nostr.{Event, Filter, Tag}
use demedia_nostr.Postgres.Query.Text.{
  Param, text, int, like, tag_query, limit_param, or_true, head_text, tail_text, ◌>>=◌,
}

pub data Condition : Type 0 where
  ids : List Bytes → Condition
  authors : List Bytes → Condition
  kinds : List ℤ → Condition
  tag_values : List String → Condition
  since : ℤ → Condition
  until : ℤ → Condition

unfoldable pub print : Condition → String
print (ids bs) = "(" <> join (map (like "id") bs) " OR " <> ")"
print (authors bs) = "(" <> join (map (like "pubkey") bs) " OR " <> ")"
print (kinds ks) = "kind IN (" <> join (map itoa ks) "," <> ")"
print (tag_values vs) = "tagvalues && ARRAY[" <> join (map (λ _. "?") vs) "," <> "]"
print (since t) = "created_at > ?"
print (until t) = "created_at < ?"

unfoldable pub params_of : Condition → List Param
params_of (ids bs) = []
params_of (authors bs) = []
params_of (kinds ks) = []
params_of (tag_values vs) = map text vs
params_of (since t) = int t ∷ []
params_of (until t) = int t ∷ []

unfoldable pub all_params : List Condition → List Param
unfolding params_of
all_params [] = []
all_params (c ∷ cs) = params_of c ++ all_params cs

-- The statement of all conditions, with the limit.
abbrev pub printed : ℤ → List Condition → String × List Param
printed limit cs = (
  head_text <> join (or_true (map print cs)) " AND " <> tail_text,
  all_params cs ++ (int (limit_param limit) ∷ []),
)

-- tags_to_tagvalues of init.go: the second item of each tag whose first has one character.
unfoldable pub tagvalues : List Tag → List String
tagvalues [] = []
tagvalues ([] ∷ tags) = tagvalues tags
tagvalues ((name ∷ []) ∷ tags) = tagvalues tags
tagvalues ((name ∷ value ∷ more) ∷ tags) =
    let rest = tagvalues tags in if nat_beq (count name) 1 then value ∷ rest else rest

-- The values that are the hexadecimal digits of 32 bytes.
abbrev pub push_bytes : Option Bytes → List Bytes → List Bytes
push_bytes none bs = bs
push_bytes (some parsed) bs = if nat_beq (length parsed) 32 then parsed ∷ bs else bs

unfoldable pub decoded : List String → List Bytes
decoded [] = []
decoded (v ∷ values) = push_bytes (hex_decode v) (decoded values)

abbrev pub some_bytes : (List Bytes → Condition) → List Bytes → Option (List Condition)
some_bytes c [] = none
some_bytes c (b ∷ bs) = some (c (b ∷ bs) ∷ [])

abbrev pub prefix_conditions :
    (List Bytes → Condition) → Option (List String) → Option (List Condition)
prefix_conditions c none = some []
prefix_conditions c (some values) =
    if ltb 500 (length values) then none else some_bytes c (decoded values)

abbrev pub kinds_conditions : Option (List ℤ) → Option (List Condition)
kinds_conditions none = some []
kinds_conditions (some ks) =
    if ltb 10 (length ks)
    then none
    else if nat_beq (length ks) 0
    then none
    else some (kinds ks ∷ [])

abbrev pub tag_conditions : List String → List Condition
tag_conditions [] = []
tag_conditions (v ∷ vs) = tag_values (v ∷ vs) ∷ []

abbrev pub time_conditions : (ℤ → Condition) → Option ℤ → List Condition
time_conditions c none = []
time_conditions c (some t) = c t ∷ []

abbrev pub put_together :
    Filter → List Condition → List Condition → List Condition → List String → List Condition
put_together f i a k tags =
    i
    ++ (a
        ++ (k
            ++ (tag_conditions tags
                ++ (time_conditions since f.since ++ time_conditions until f.until))))

-- The conditions of a filter; `none` is an early return.
unfoldable pub conditions : Filter → Option (List Condition)
unfolding decoded tag_query
conditions f = do
  i ← prefix_conditions ids f.ids
  a ← prefix_conditions authors f.authors
  k ← kinds_conditions f.kinds
  tags ← tag_query [] f.tags
  some (put_together f i a k tags)
