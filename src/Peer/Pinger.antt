-- ===== src/Peer/Pinger.antt =====
-- peer/main.go: the goroutine of Init that registers the peer at the hub, again and again.
use demedia_nostr.Prelude.{ℕ, zero, suc, String, List, [], ◌∷◌, if◌then◌else◌}
use demedia_nostr.Prelude.Text.{◌<>◌}
use demedia_nostr.Prelude.Splits.{contains}
use demedia_nostr.Prelude.Go.{Go, returns, panics, blocks}
use demedia_nostr.Nostr.{Result, ok, err, error_text}
use demedia_nostr.Ql.{Codec, Network, ql_call}

-- What a round makes of the answer: the seconds that the ticker is reset to, or a panic.
abbrev pub after_call : Result String → Go ℕ
after_call (ok reply) = returns 5
after_call (err e) =
    if contains (error_text e) "connection refused"
    then returns 10
    else if contains (error_text e) "dial backoff"
    then returns 15
    else panics

module _ {Env : Type 0} (net : Network Env) (j : Codec) (marshal_text : String → Result String)
    (btc_pub_key peer_address hub : String) where
  -- One tick.
  unfoldable pub ping_hub : Env → Go ℕ × Env
  ping_hub w =
      let r =
        ql_call net j (marshal_text (btc_pub_key <> ";" <> peer_address)) hub "PingService" "Ping"
          "" [] w in
      (after_call r.0, r.1)

  abbrev pub then_waits : (Env → Go (List ℕ) × Env) → Go ℕ × Env → Go (List ℕ) × Env
  then_waits rest (returns t, w) = let r = rest w in (prefixed t r.0, r.1)
    where
      prefixed : ℕ → Go (List ℕ) → Go (List ℕ)
      prefixed t (returns ts) = returns (t ∷ ts)
      prefixed t panics = panics
      prefixed t blocks = blocks
  then_waits rest (panics, w) = (panics, w)
  then_waits rest (blocks, w) = (blocks, w)

  -- A number of ticks, with the seconds after each.
  unfoldable pub ping_rounds : ℕ → Env → Go (List ℕ) × Env
  unfolding ping_hub
  ping_rounds zero w = (returns [], w)
  ping_rounds (suc n) w = then_waits (ping_rounds n) (ping_hub w)
