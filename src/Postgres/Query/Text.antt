-- ===== src/Postgres/Query/Text.antt =====
-- The body of QueryEvents. The database's Query and Rebind are parameters.
use demedia_nostr.Prelude.{
  String, ◌||◌, Option, none, some, List, [], ◌∷◌, ◌++◌, map, length, ltb, nat_beq, ℤ, pos, int_ltb,
  if◌then◌else◌,
}
use demedia_nostr.Prelude.Text.{◌<>◌, join, itoa}
use demedia_nostr.Prelude.Hex.{Bytes, hex_encode, hex_decode}
use demedia_nostr.Prelude.Map.{Map}
use demedia_nostr.Nostr.{Event, Filter, message, error_text, Result, ok, err}

-- A value that goes with a placeholder.
pub data Param : Type 0 where
  text : String → Param
  int : ℤ → Param

infixl 5 ◌>>=◌
abbrev pub ◌>>=◌ {ℓ κ} : {A : Type ℓ} {B : Type κ} → Option A → (A → Option B) → Option B
none >>= f = none
some a >>= f = f a

abbrev pub like : String → Bytes → String
like column parsed = column <> " LIKE '" <> hex_encode parsed <> "%'"

abbrev pub push_like : String → Option Bytes → List String → List String
push_like column none likes = likes
push_like column (some parsed) likes =
    if nat_beq (length parsed) 32 then like column parsed ∷ likes else likes

-- The loops over the ids and over the authors, which differ in the column.
unfoldable pub likes : String → List String → List String
likes column [] = []
likes column (v ∷ values) = push_like column (hex_decode v) (likes column values)

abbrev pub any_like : List String → Option (List String)
any_like [] = none
any_like (l ∷ ls) = some (("(" <> join (l ∷ ls) " OR " <> ")") ∷ [])

-- A block of the function that may return early, which is `none`, or add conditions.
unfoldable pub prefix_block : String → Option (List String) → Option (List String)
prefix_block column none = some []
prefix_block column (some values) =
    if ltb 500 (length values) then none else any_like (likes column values)

unfoldable pub kinds_block : Option (List ℤ) → Option (List String)
kinds_block none = some []
kinds_block (some kinds) =
    if ltb 10 (length kinds)
    then none
    else if nat_beq (length kinds) 0
    then none
    else some (("kind IN (" <> join (map itoa kinds) "," <> ")") ∷ [])

-- The loop over filter.Tags.
unfoldable pub tag_query : List String → Map String (List String) → Option (List String)
tag_query acc [] = some acc
tag_query acc ((name, values) ∷ tags) =
    let rest = tag_query (acc ++ values) tags in
    if nat_beq (length values) 0
    then none
    else if ltb 10 (length (acc ++ values))
    then none
    else rest

unfoldable pub tags_block : List String → List String
tags_block [] = []
tags_block (v ∷ vs) = ("tagvalues && ARRAY[" <> join (map (λ _. "?") (v ∷ vs)) "," <> "]") ∷ []

abbrev pub time_block : String → Option ℤ → List String
time_block condition none = []
time_block condition (some t) = condition ∷ []

abbrev pub time_param : Option ℤ → List Param
time_param none = []
time_param (some t) = int t ∷ []

abbrev pub or_true : List String → List String
or_true [] = "true" ∷ []
or_true (c ∷ cs) = c ∷ cs

unfoldable pub limit_param : ℤ → ℤ
limit_param limit = if int_ltb limit (pos 1) || int_ltb (pos 100) limit then pos 100 else limit

abbrev pub head_text : String
head_text = "SELECT\n      id, pubkey, created_at, kind, tags, content, sig\n    FROM event WHERE "

abbrev pub tail_text : String
tail_text = " ORDER BY created_at DESC LIMIT ?"

-- The conditions of the blocks and the tag values, put together.
unfoldable pub assemble :
    Filter → List String → List String → List String → List String → String × List Param
unfolding tags_block limit_param
assemble f ids authors kinds tags =
    let times = time_block "created_at > ?" f.since ++ time_block "created_at < ?" f.until in
    let conditions = ids ++ (authors ++ (kinds ++ (tags_block tags ++ times))) in
    (
      head_text <> join (or_true conditions) " AND " <> tail_text,
      map text tags
          ++ (time_param f.since ++ (time_param f.until ++ (int (limit_param f.limit) ∷ []))),
    )

-- The statement, before Rebind, and its parameters; `none` is an early return with no events and
-- no error.
unfoldable pub statement : Filter → Option (String × List Param)
unfolding prefix_block kinds_block tag_query assemble likes
statement f = do
  ids ← prefix_block "id" f.ids
  authors ← prefix_block "pubkey" f.authors
  kinds ← kinds_block f.kinds
  tags ← tag_query [] f.tags
  some (assemble f ids authors kinds tags)

-- rows.Next and rows.Scan: the events so far, and what Scan gives at each row.
unfoldable pub scan_rows : List Event → List (Result Event) → Result (List Event)
scan_rows events [] = ok events
scan_rows events (err e ∷ rows) = err (message ("failed to scan row: " <> error_text e))
scan_rows events (ok evt ∷ rows) = scan_rows (events ++ (evt ∷ [])) rows

-- `quote` is the verb %q.
module _ (rebind quote : String → String)
    (query : String → List Param → Result (List (Result Event))) where
  abbrev pub fetched : String → Result (List (Result Event)) → Result (List Event)
  fetched q (err e) =
      err (message ("failed to fetch events using query " <> quote q <> ": " <> error_text e))
  fetched q (ok rows) = scan_rows [] rows

  abbrev pub run_statement : Option (String × List Param) → Result (List Event)
  run_statement none = ok []
  run_statement (some (s, params)) = fetched (rebind s) (query (rebind s) params)

  -- The filter is a pointer.
  unfoldable pub query_events : Option Filter → Result (List Event)
  unfolding statement scan_rows
  query_events none = err (message "filter cannot be null")
  query_events (some f) = run_statement (statement f)
