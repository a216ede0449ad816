-- ===== src/Tests/PostgresCases.antt =====
-- The theorems of Postgres at a table of two events, and at concrete filters and peers.
use demedia_nostr.Prelude.{
  String, ◌==◌, eq_iff, none, some, List, [], ◌∷◌, map, take, length, ℕ, ◌++◌, ◌≡◌, refl, All, In,
  inl, any, arith, pos, if◌then◌else◌, ◌-◌, ◌*◌, ltb, string_eq,
}
use demedia_nostr.Prelude.Map.{lookup}
use demedia_nostr.Prelude.Text.{join, itoa}
use demedia_nostr.Nostr.{Event, Filter, dup_event, Result, ok, err, message}
use demedia_nostr.Postgres.{
  PeerInfo, PostgresBackend, save_event, after_save, has_kind, exec, insert_new, delete_where,
}
use demedia_nostr.Postgres.Select.{select}
use demedia_nostr.Postgres.Save.{survivors, save_event_unique, save_event-dup}
use demedia_nostr.Postgres.Owners.{save, apply, rows_of, rows_of-apply, NodupIds, apply-NodupIds}
use demedia_nostr.Postgres.Recent.{after_save_keeps_recent, newer_count}
use demedia_nostr.Postgres.Query.Text.{text, int, likes, statement}
use demedia_nostr.Postgres.Query.Text.{Param, query_events, limit_param}
use demedia_nostr.Postgres.Query.Conditions.{Condition, conditions, print, printed, tagvalues}
use demedia_nostr.Postgres.Query.Conditions.Meaning.{all_hold, is_selected_by}
use demedia_nostr.Postgres.Query.Conditions.Answers.{query_events-is_selected_by}
use mathlib.Core.Option.{some-injective}
use demedia_nostr.Postgres.Query.Marks.{marks}
use demedia_nostr.Postgres.Query.Placeholders.{marks-statement}
use demedia_nostr.Postgres.Query.Bounds.{IsLike, IsAdmitted, likes-IsLike, statement-IsAdmitted}
use demedia_nostr.Postgres.Peers.{
  save_peer, get_peer, drop_silent, get_peer_known, lookup-drop_silent_save,
}
use demedia_nostr.Tests.Packages.{nostr}
use demedia_nostr.Tests.Hub.{note, any_filter}

-- Two profiles of one author, and the note.
abbrev old : Event
old = record note { id = "p1"; kind = pos 0 }

abbrev new : Event
new = record note { id = "p2"; kind = pos 0; created_at = pos 2000 }

abbrev backend : PostgresBackend
backend = record { db = record { rows = old ∷ note ∷ []; faults = [] }; peers = [] }

save_event_unique_example :
    select (has_kind new) (save_event nostr new backend).1.db.rows ≡ new ∷ []
unfolding save_event exec delete_where insert_new
save_event_unique_example = save_event_unique nostr new backend refl refl refl

save_event-dup_example :
    ((save_event nostr note backend).0 ≡ (
      if any (λ r. r.id == "n1") (survivors nostr note (old ∷ note ∷ []))
      then some dup_event
      else none))
    × ((save_event nostr note backend).1.db.rows ≡ (
        if any (λ r. r.id == "n1") (survivors nostr note (old ∷ note ∷ []))
        then survivors nostr note (old ∷ note ∷ [])
        else survivors nostr note (old ∷ note ∷ []) ++ (note ∷ [])))
save_event-dup_example = save_event-dup nostr note backend refl

rows_of-apply_example :
    rows_of "alice" (apply nostr (save (record new { pub_key = "bob" })) backend).db.rows
    ≡ rows_of "alice" (old ∷ note ∷ [])
rows_of-apply_example =
    rows_of-apply nostr (save (record new { pub_key = "bob" })) backend "alice"
      (λ e. ground (arith, (eq_iff "bob" "alice").1 e))

apply-NodupIds_example : NodupIds (apply nostr (save new) backend).db.rows
apply-NodupIds_example = apply-NodupIds nostr (save new) backend (refl, (refl, tt))

after_save_keeps_recent_example : In old (after_save new backend).1.db.rows
unfolding newer_count
after_save_keeps_recent_example = after_save_keeps_recent new backend old (inl refl) (omega arith)

abbrev id64 : String
id64 = "00000000000000000000000000000000000000000000000000000000000000ff"

likes-IsLike_example : All (IsLike "id") (likes "id" (id64 ∷ "' OR 1" ∷ []))
likes-IsLike_example = likes-IsLike "id" (id64 ∷ "' OR 1" ∷ [])

abbrev filter : Filter
filter = record any_filter {
  kinds = some (pos 1 ∷ []);
  tags = ("e", "x" ∷ "y" ∷ []) ∷ [];
  limit = pos 500;
}

abbrev sql : String
sql =
    "SELECT\n      id, pubkey, created_at, kind, tags, content, sig\n    FROM event WHERE kind IN (1) AND tagvalues && ARRAY[?,?] ORDER BY created_at DESC LIMIT ?"

statement-IsAdmitted_example : IsAdmitted filter (text "x" ∷ text "y" ∷ int (pos 100) ∷ [])
unfolding statement join itoa
statement-IsAdmitted_example =
    statement-IsAdmitted filter sql (text "x" ∷ text "y" ∷ int (pos 100) ∷ []) refl

marks-statement_example : marks sql ≡ length (text "x" ∷ text "y" ∷ int (pos 100) ∷ [])
unfolding statement join itoa
marks-statement_example = marks-statement filter sql (text "x" ∷ text "y" ∷ int (pos 100) ∷ []) refl

-- A table whose second row has a value that is in the filter's tag.
abbrev tagged : Event
tagged = record note { id = id64; pub_key = id64; tags = ("e" ∷ "y" ∷ []) ∷ [] }

abbrev table : List Event
table = record tagged { tags = [] } ∷ tagged ∷ []

-- A database that knows one statement.
abbrev run_sql : String → List Param → Result (List (Result Event))
run_sql s params = if s == sql then ok (ok tagged ∷ []) else err (message "syntax error")

runs_sql :
    (cs : List Condition) (n : ℕ)
    → conditions filter ≡ some cs
    → limit_param filter.limit ≡ pos n
    → run_sql (printed filter.limit cs).0 (printed filter.limit cs).1
      ≡ ok (map ok (take n (select (all_hold cs) table)))
unfolding conditions print limit_param all_hold select join itoa
runs_sql cs n e l =
    let hundred : n ≡ 100 = ground (arith, l) in rw (← some-injective _ _ e, hundred) refl

query_events-is_selected_by_example :
    query_events (λ s. s) (λ s. s) run_sql (some filter) ≡ ok (tagged ∷ [])
unfolding is_selected_by select tagvalues
query_events-is_selected_by_example =
    query_events-is_selected_by (λ s. s) (λ s. s) run_sql (λ es. es) table filter
      (record { ids = tt; authors = tt; kinds = omega arith; tags = omega arith })
      ((refl, refl), ((refl, refl), tt)) refl runs_sql

abbrev info : PeerInfo
info = record { address = "/dns/alice"; last_update = 7 }

get_peer_known_example : get_peer (λ n. n - 1) "alice" (("alice", info) ∷ []) ≡ "/dns/alice"
unfolding lookup
get_peer_known_example =
    get_peer_known (λ n. n - 1) "alice" (("alice", info) ∷ []) info refl
      (λ e. ground (arith, (eq_iff "/dns/alice" "").1 e))

lookup-drop_silent_save_example :
    lookup "bob"
      (drop_silent 9000000000 (save_peer 3000000000 "/dns/bob" "bob" (("alice", info) ∷ [])))
    ≡ (if ltb (5 * 1000000000) (9000000000 - 3000000000)
        then none
        else some (record { address = "/dns/bob"; last_update = 3000000000 }))
unfolding lookup
lookup-drop_silent_save_example =
    lookup-drop_silent_save 3000000000 9000000000 "bob" "/dns/bob" (("alice", info) ∷ []) (refl, tt)
