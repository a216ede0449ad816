-- ===== src/Tests/BackendsCases.antt =====
-- The theorem of Backends at a table of two articles.
use mathlib.Core.Option.{some-injective}
use demedia_nostr.Prelude.{
  String, some, List, [], ◌∷◌, map, take, ℕ, ◌==◌, ◌≡◌, refl, arith, pos, if◌then◌else◌, string_eq,
}
use demedia_nostr.Prelude.Text.{join, itoa}
use demedia_nostr.Prelude.Hex.{hex_decode, hex_encode}
use demedia_nostr.Nostr.{Event, Filter, Result, ok, err, message}
use demedia_nostr.Elastic.Dsl.{build_dsl}
use demedia_nostr.Postgres.Select.{select}
use demedia_nostr.Postgres.Query.Text.{Param, query_events, limit_param}
use demedia_nostr.Postgres.Query.Conditions.{Condition, conditions, print, printed}
use demedia_nostr.Postgres.Query.Conditions.Meaning.{all_hold}
use demedia_nostr.Backends.{query_events-matches}
use demedia_nostr.Tests.Hub.{any_filter}
use demedia_nostr.Tests.ElasticCases.{id64, key64, past, hit, clause, matches, documented}

-- The article, and one of another author.
abbrev table : List Event
table = past ∷ record past { pub_key = id64 } ∷ []

abbrev filter : Filter
filter = record any_filter { authors = some (key64 ∷ []); kinds = some (pos 30023 ∷ []) }

abbrev sql : String
sql =
    "SELECT\n      id, pubkey, created_at, kind, tags, content, sig\n    FROM event WHERE (pubkey LIKE '89abcdef012345670123456789abcdef0123456789abcdef0123456789abcdef%') AND kind IN (30023) ORDER BY created_at DESC LIMIT ?"

-- A database that knows one statement.
abbrev run_sql : String → List Param → Result (List (Result Event))
run_sql s params = if s == sql then ok (ok past ∷ []) else err (message "syntax error")

runs :
    (cs : List Condition) (n : ℕ)
    → conditions filter ≡ some cs
    → limit_param filter.limit ≡ pos n
    → run_sql (printed filter.limit cs).0 (printed filter.limit cs).1
      ≡ ok (map ok (take n (select (all_hold cs) table)))
unfolding conditions print limit_param all_hold select join itoa hex_decode hex_encode
runs cs n e l =
    let hundred : n ≡ 100 = ground (arith, l) in rw (← some-injective _ _ e, hundred) refl

query_events-matches_example : query_events (λ s. s) (λ s. s) run_sql (some filter) ≡ ok (past ∷ [])
unfolding select build_dsl hex_decode hex_encode
query_events-matches_example =
    query_events-matches matches clause hit documented (λ s. s) (λ s. s) run_sql (λ es. es) table
      filter
      (record {
        is_small = record {
          ids = tt;
          authors = omega arith;
          kinds = omega arith;
          tags = omega arith;
        };
        ids = tt;
        authors = (refl, tt);
        full_ids = refl;
        full_authors = refl;
        full_kinds = refl;
        tags = refl;
        since = refl;
        until = refl;
      })
      ((refl, refl), ((refl, refl), tt)) refl runs
