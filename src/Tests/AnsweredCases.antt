-- ===== src/Tests/AnsweredCases.antt =====
-- The theorem of Server.Answered at a hub and a peer with a Postgres storage.
use mathlib.Core.Option.{some-injective}
use demedia_nostr.Prelude.{
  ℕ, String, Bool, true, false, ◌==◌, ◌&&◌, eq_iff, Option, none, some, List, [], ◌∷◌, map, take,
  ◌-◌, pos, int_beq, int_beq_iff, ◌≡◌, refl, arith, if◌then◌else◌, string_eq, nat_eq,
}
use demedia_nostr.Prelude.Map.{lookup}
use demedia_nostr.Prelude.Text.{join}
use demedia_nostr.Prelude.Hex.{hex_decode, hex_encode}
use demedia_nostr.Prelude.Go.{returns}
use demedia_nostr.Nostr.{Event, Filter, ok, err, message}
use demedia_nostr.Ql.{Codec, Network}
use demedia_nostr.Bridge.{ql}
use demedia_nostr.Bridge.Remote.{IsLossless, LeadsTo}
use demedia_nostr.Postgres.Table.{PostgresBackend, save_event, exec, insert_new}
use demedia_nostr.Postgres.Peers.{get_peer}
use demedia_nostr.Postgres.Select.{select}
use demedia_nostr.Postgres.Backend.{Platform, storage}
use demedia_nostr.Postgres.Query.Text.{limit_param}
use demedia_nostr.Postgres.Query.Conditions.{Condition, conditions, print, printed}
use demedia_nostr.Postgres.Query.Conditions.Meaning.{all_hold}
use demedia_nostr.Postgres.Query.Saved.{by_id}
use demedia_nostr.Server.{Server, World}
use demedia_nostr.Server.Events.{send_event}
use demedia_nostr.Server.Subscribe.{find_events}
use demedia_nostr.Server.Answered.{find_events-send_event}
use demedia_nostr.Tests.Packages.{nostr, crypto}
use demedia_nostr.Tests.Hub.{note, codec_for, codec_for-IsLossless, is_same, is_same-eq}

abbrev id64 : String
id64 = "00000000000000000000000000000000000000000000000000000000000000ff"

abbrev saved_note : Event
saved_note = record note { id = id64; pub_key = id64 }

-- A test for a list of the id, or of the public key, which is the same text.
abbrev is_the_id : Option (List String) → Bool
is_the_id none = false
is_the_id (some []) = false
is_the_id (some (x ∷ [])) = x == id64
is_the_id (some (x ∷ y ∷ xs)) = false

abbrev is_nil {ℓ} : {A : Type ℓ} → List A → Bool
is_nil [] = true
is_nil (x ∷ xs) = false

abbrev is_none {ℓ} : {A : Type ℓ} → Option A → Bool
is_none none = true
is_none (some x) = false

abbrev is_by_id : Filter → Bool
is_by_id f =
    is_the_id f.ids
    && is_none f.kinds
    && is_the_id f.authors
    && is_nil f.tags
    && is_none f.since
    && is_none f.until
    && int_beq f.limit (pos 0)

the_id : (o : Option (List String)) → is_the_id o ≡ true → some (id64 ∷ []) ≡ o
the_id none h = absurd (ground (arith, h))
the_id (some []) h = absurd (ground (arith, h))
the_id (some (x ∷ [])) h = ground (arith, h, eq_iff x id64)
the_id (some (x ∷ y ∷ xs)) h = absurd (ground (arith, h))

is_by_id-eq : (f : Filter) → is_by_id f ≡ true → by_id id64 id64 ≡ f
is_by_id-eq f h = ground (arith, the_id f.ids, the_id f.authors, int_beq_iff f.limit (pos 0))

abbrev codec : Codec
codec = codec_for saved_note (is_same saved_note) (by_id id64 id64) is_by_id

lossless : IsLossless codec
lossless =
    codec_for-IsLossless saved_note (is_same saved_note) (by_id id64 id64) is_by_id
      (λ e h. is_same-eq saved_note e refl h) is_by_id-eq

abbrev sql : String
sql =
    "SELECT\n      id, pubkey, created_at, kind, tags, content, sig\n    FROM event WHERE (id LIKE '00000000000000000000000000000000000000000000000000000000000000ff%') AND (pubkey LIKE '00000000000000000000000000000000000000000000000000000000000000ff%') ORDER BY created_at DESC LIMIT ?"

-- A database that knows the statement for the id and the public key.
abbrev platform : Platform
platform = record {
  rebind = λ s. s;
  quote = λ s. s;
  query = λ rows s params.
      if s == sql
      then ok (map ok (select (λ r. r.id == id64 && r.pub_key == id64) rows))
      else err (message "syntax");
  now = 7;
  intn = λ n. n - 1;
}

abbrev network : Network PostgresBackend
network = record {
  Multiaddr = String;
  AddrInfo = String;
  new_multiaddr = λ s. ok s;
  resolve = λ ma w. ok (ma ∷ []);
  addr_info = λ ma. ok ma;
  connect = λ info w. (none, w);
  call = λ info service method args w. ql codec (storage nostr platform) args w;
}

leads : LeadsTo codec network (storage nostr platform) "/dns/alice"
leads = record {
  ma = "/dns/alice";
  info = "/dns/alice";
  parses = refl;
  resolves = λ w. refl;
  has_info = refl;
  connects = λ w. refl;
  answers = λ args w. refl;
}

-- The hub's registry and the peer's table are one state here.
abbrev backend : PostgresBackend
backend = record {
  db = record { rows = []; faults = [] };
  peers = (id64, record { address = "/dns/alice"; last_update = 7 }) ∷ [];
}

abbrev hub : Server PostgresBackend
hub = record {
  nostr = nostr;
  crypto = crypto;
  codec = codec;
  network = network;
  relay = record {
    storage = storage nostr platform;
    accept_event = λ evt. true;
    advanced_querier = none;
    advanced_deleter = none;
    advanced_saver = none;
    auther = none;
    custom_handler = none;
  };
  has_host = true;
  blob = none;
  ipfs = none;
  ecdsa_pvt_key = some 5;
  get = λ url w. (err (message "get"), w);
}

abbrev world : World PostgresBackend
world = record { env = backend; listeners = []; sent = []; authed = λ ws. "" }

runs :
    (cs : List Condition) (m : ℕ)
    → conditions (by_id id64 id64) ≡ some cs
    → limit_param (pos 0) ≡ pos m
    → platform.query (saved_note ∷ []) (printed (pos 0) cs).0 (printed (pos 0) cs).1
      ≡ ok (map ok (take m (select (all_hold cs) (saved_note ∷ []))))
unfolding conditions print limit_param all_hold select join hex_decode hex_encode
runs cs m e l =
    let hundred : m ≡ 100 = ground (arith, l) in rw (← some-injective _ _ e, hundred) refl

find_events-send_event_example :
    ((send_event hub [] saved_note world).0 ≡ returns (true, ""))
    × (find_events hub [] 1 "sub" (by_id id64 id64) (send_event hub [] saved_note world).1
        ≡ (returns (ok (saved_note ∷ [])), (send_event hub [] saved_note world).1))
unfolding storage save_event exec insert_new get_peer lookup hex_decode hex_encode
find_events-send_event_example =
    find_events-send_event hub [] nostr platform (λ es. es) lossless 1 "sub" saved_note world
      "/dns/alice" "note" "save" "filter" "query" "notes" backend refl refl refl refl refl leads
      refl refl refl refl refl refl refl refl ((refl, refl), tt) refl refl runs
