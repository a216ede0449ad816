-- ===== src/Tests/Hub.antt =====
-- A hub, a codec that knows one note, one filter and the calls with them, and a peer.
use demedia_nostr.Prelude.{
  String, Bool, true, false, ◌==◌, ◌&&◌, eq_iff, Option, none, some, List, [], ◌∷◌, any, ◌≡◌, refl,
  ap, arith, pos, int_beq, int_beq_iff, if◌then◌else◌, inl, inr, ◌⊎◌,
}
use demedia_nostr.Nostr.{Event, Filter, Result, ok, err, message, dup_event}
use demedia_nostr.Storage.{Storage, Relay}
use demedia_nostr.Ql.{BridgeCall, Codec, Network}
use demedia_nostr.Bridge.{ql}
use demedia_nostr.Bridge.Remote.{IsLossless, LeadsTo}
use demedia_nostr.Server.{Server, World}
use demedia_nostr.Tests.Packages.{nostr, crypto}

abbrev pub note : Event
note = record {
  id = "n1";
  pub_key = "alice";
  created_at = pos 1000;
  kind = pos 1;
  tags = [];
  content = "hello";
  sig = "good";
}

abbrev pub any_filter : Filter
any_filter = record {
  ids = none;
  kinds = none;
  authors = none;
  tags = [];
  since = none;
  until = none;
  limit = pos 0;
}

abbrev is_nil {ℓ} : {A : Type ℓ} → List A → Bool
is_nil [] = true
is_nil (x ∷ xs) = false

abbrev is_none {ℓ} : {A : Type ℓ} → Option A → Bool
is_none none = true
is_none (some x) = false

abbrev pub is_same : Event → Event → Bool
is_same evt e =
    e.id == evt.id
    && e.pub_key == evt.pub_key
    && int_beq e.created_at evt.created_at
    && int_beq e.kind evt.kind
    && is_nil e.tags
    && e.content == evt.content
    && e.sig == evt.sig

pub is_same-eq : (evt e : Event) → evt.tags ≡ [] → is_same evt e ≡ true → evt ≡ e
is_same-eq evt e untagged h = ground (
  arith,
  untagged,
  eq_iff e.id evt.id,
  eq_iff e.pub_key evt.pub_key,
  int_beq_iff e.created_at evt.created_at,
  int_beq_iff e.kind evt.kind,
  eq_iff e.content evt.content,
  eq_iff e.sig evt.sig,
)

abbrev pub is_any_filter : Filter → Bool
is_any_filter f =
    is_none f.ids
    && is_none f.kinds
    && is_none f.authors
    && is_nil f.tags
    && is_none f.since
    && is_none f.until
    && int_beq f.limit (pos 0)

pub is_any_filter-eq : (f : Filter) → is_any_filter f ≡ true → any_filter ≡ f
is_any_filter-eq f h = ground (arith, int_beq_iff f.limit (pos 0))

abbrev fails : {A : Type 0} → Result A
fails = err (message "json")

abbrev marshal_else : Bool → String → Result String → Result String
marshal_else true s r = ok s
marshal_else false s r = r

ok-injective : (s t : String) → ok s ≡ ok t → s ≡ t
ok-injective s t e = cc

marshal_else-ok :
    (b : Bool) (t : String) (r : Result String) (s : String)
    → marshal_else b t r ≡ ok s
    → ((b ≡ true) × (t ≡ s)) ⊎ (r ≡ ok s)
marshal_else-ok true t r s e = inl (refl, ok-injective t s e)
marshal_else-ok false t r s e = inr e

abbrev marshal_if : Bool → String → Result String
marshal_if b s = marshal_else b s fails

pub marshal_if-ok : (b : Bool) (t s : String) → marshal_if b t ≡ ok s → (b ≡ true) × (t ≡ s)
marshal_if-ok true t s e = (refl, ok-injective t s e)
marshal_if-ok false t s e = absurd (ground (arith, e))

abbrev call_with : String → String → BridgeCall
call_with body method = record { body = body; method = method; carrier = [] }

abbrev is_call : String → String → BridgeCall → Bool
is_call body method c = c.body == body && c.method == method && is_nil c.carrier

is_call-eq :
    (body method : String) (c : BridgeCall)
    → is_call body method c ≡ true
    → call_with body method ≡ c
is_call-eq body method c h = ground (arith, eq_iff c.body body, eq_iff c.method method)

-- A codec that knows one event, as "note", and one filter, as "filter", by tests for them.
module _ (evt : Event) (is_evt : Event → Bool) (f : Filter) (is_f : Filter → Bool) where
  abbrev is_list : List Event → Bool
  is_list [] = false
  is_list (e ∷ []) = is_evt e
  is_list (e ∷ e' ∷ es) = false

  abbrev pub codec_for : Codec
  codec_for = record {
    marshal_event = λ e. marshal_if (is_evt e) "note";
    unmarshal_event = λ s. if s == "note" then ok evt else fails;
    marshal_filter = λ d. marshal_if (is_f d) "filter";
    unmarshal_filter = λ s. if s == "filter" then ok f else fails;
    marshal_events = λ es. marshal_if (is_list es) "notes";
    unmarshal_events = λ s. if s == "notes" then ok (evt ∷ []) else fails;
    marshal_call = λ c. marshal_else (is_call "note" "saveEvent" c) "save" (
        marshal_else (is_call "note" "deleteEvent" c) "delete"
          (marshal_if (is_call "filter" "queryEvents" c) "query"));
    unmarshal_call = λ s.
        if s == "save"
        then ok (call_with "note" "saveEvent")
        else if s == "delete"
        then ok (call_with "note" "deleteEvent")
        else if s == "query"
        then ok (call_with "filter" "queryEvents")
        else fails;
    unmarshal_request = λ s. if s == "close" then ok ("CLOSE" ∷ "sub" ∷ []) else fails;
    unmarshal_text = λ s. s;
  }

  call_lossless :
      (d : BridgeCall) (s : String)
      → codec_for.marshal_call d ≡ ok s
      → codec_for.unmarshal_call s ≡ ok d
  call_lossless d s e = elim (marshal_else-ok (is_call "note" "saveEvent" d) "save" _ s e) [
    | inl p ↦ rw (← p.1) (ap ok (is_call-eq "note" "saveEvent" d p.0))
    | inr e' ↦ elim (marshal_else-ok (is_call "note" "deleteEvent" d) "delete" _ s e') [
      | inl p ↦ rw (← p.1) (ap ok (is_call-eq "note" "deleteEvent" d p.0))
      | inr e'' ↦
          let p = marshal_if-ok (is_call "filter" "queryEvents" d) "query" s e'' in
          rw (← p.1) (ap ok (is_call-eq "filter" "queryEvents" d p.0))
    ]
  ]

  module _ (is_evt-eq : (e : Event) → is_evt e ≡ true → evt ≡ e)
      (is_f-eq : (d : Filter) → is_f d ≡ true → f ≡ d) where
    is_list-eq : (es : List Event) → is_list es ≡ true → evt ∷ [] ≡ es
    is_list-eq [] h = absurd (ground (arith, h))
    is_list-eq (e ∷ []) h = ap (λ (x : Event). x ∷ []) (is_evt-eq e h)
    is_list-eq (e ∷ e' ∷ es) h = absurd (ground (arith, h))

    pub codec_for-IsLossless : IsLossless codec_for
    codec_for-IsLossless = record {
      event = λ d s e. let p = marshal_if-ok _ "note" s e in rw (← p.1) (ap ok (is_evt-eq d p.0));
      filter = λ d s e. let p = marshal_if-ok _ "filter" s e in rw (← p.1) (ap ok (is_f-eq d p.0));
      events =
          λ d s e. let p = marshal_if-ok _ "notes" s e in rw (← p.1) (ap ok (is_list-eq d p.0));
      call = call_lossless;
    }

abbrev pub codec : Codec
codec = codec_for note (is_same note) any_filter is_any_filter

pub codec-IsLossless : IsLossless codec
codec-IsLossless =
    codec_for-IsLossless note (is_same note) any_filter is_any_filter
      (λ e h. is_same-eq note e refl h) is_any_filter-eq

-- A peer that keeps its events in a list, and saves none twice. The hub knows its address.
abbrev Env : Type 0
Env = List Event

abbrev pub peer : Storage Env
peer = record {
  query_events = λ f events. (ok events, events);
  delete_event = λ id pubkey events. (none, []);
  save_event = λ evt events.
      if any (λ e. e.id == evt.id) events then (some dup_event, events) else (none, evt ∷ events);
  save_peer = λ pubkey address events. events;
  get_peer = λ pubkey events. ("/dns/alice", events);
}

abbrev pub network : Network Env
network = record {
  Multiaddr = String;
  AddrInfo = String;
  new_multiaddr = λ s. ok s;
  resolve = λ ma events. ok (ma ∷ []);
  addr_info = λ ma. ok ma;
  connect = λ info events. (none, events);
  call = λ info service method args events. ql codec peer args events;
}

pub network-LeadsTo : LeadsTo codec network peer "/dns/alice"
network-LeadsTo = record {
  ma = "/dns/alice";
  info = "/dns/alice";
  parses = refl;
  resolves = λ w. refl;
  has_info = refl;
  connects = λ w. refl;
  answers = λ args w. refl;
}

abbrev relay : Relay Env
relay = record {
  storage = peer;
  accept_event = λ evt. true;
  advanced_querier = none;
  advanced_deleter = none;
  advanced_saver = none;
  auther = none;
  custom_handler = none;
}

abbrev pub hub : Server Env
hub = record {
  nostr = nostr;
  crypto = crypto;
  codec = codec;
  network = network;
  relay = relay;
  has_host = true;
  blob = none;
  ipfs = none;
  ecdsa_pvt_key = some 5;
  get = λ url events. (err (message "get"), events);
}

-- Connection 1 has subscribed to every event.
abbrev pub world : List Event → World Env
world events = record {
  env = events;
  listeners = (1, ("sub", record { filters = any_filter ∷ [] }) ∷ []) ∷ [];
  sent = [];
  authed = λ ws. "";
}
