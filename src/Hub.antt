-- ===== src/Hub.antt =====
-- hub/ping/ping.go: the service by which a peer registers its address, which the peer's ticker
-- in peer/main.go calls with the text `key;address`.
pub mod Registration
use demedia_nostr.Prelude.{ℕ, String, Bool, false, ◌||◌, nat_beq, List, [], ◌∷◌, ◌≡◌, refl, ◌∙◌, ap}
use Prim.Native.String.append
use demedia_nostr.Prelude.Text.{◌<>◌, split, trim}
use demedia_nostr.Prelude.Splits.{has_code, split_one, split-append}
use demedia_nostr.Prelude.Go.{Go, returns, panics}
use demedia_nostr.Nostr.{Result, ok, err}
use demedia_nostr.Ql.{BridgeCall, Codec}

-- The cutset of strings.Trim: the backslash and the double quote.
abbrev pub is_cut : ℕ → Bool
is_cut c = nat_beq c b'\\' || nat_beq c b'"'

module _ {Env : Type 0} (j : Codec) (save_peer : String → String → Env → Env) where
  -- adds[1] and adds[0]
  abbrev pub register : List String → Env → Go (Result String) × Env
  register (pubkey ∷ address ∷ more) w = (returns (ok "Pong"), save_peer address pubkey w)
  register (pubkey ∷ []) w = (panics, w)
  register [] w = (panics, w)

  abbrev pub answer : Result BridgeCall → Env → Go (Result String) × Env
  answer (err e) w = (returns (err e), w)
  answer (ok call) w = register (split (trim call.body is_cut) b';') w

  -- The argument is the text of BridgeArgs, and the value that of BridgeReply.
  unfoldable pub ping : String → Env → Go (Result String) × Env
  ping args w = answer (j.unmarshal_call args) w

split_two :
    (k a : String)
    → has_code b';' k ≡ false
    → has_code b';' a ≡ false
    → split (k <> ";" <> a) b';' ≡ k ∷ a ∷ []
unfolding split
split_two k a h h' =
    split-append k (";" <> a) a b';' h (rw (append.cons ";" "" a, append.nil) refl)
    ∙ ap (λ (x : List String). k ∷ x) (split_one a b';' h')

module _ {Env : Type 0} (j : Codec) (save_peer : String → String → Env → Env) where
  -- A call whose body, less the quotes around it, is a key and an address with a semicolon between
  -- them, and none in them, registers that address for that key, and is answered.
  pub ping-register :
      (args k a : String) (call : BridgeCall) (w : Env)
      → j.unmarshal_call args ≡ ok call
      → trim call.body is_cut ≡ k <> ";" <> a
      → has_code b';' k ≡ false
      → has_code b';' a ≡ false
      → ping j save_peer args w ≡ (returns (ok "Pong"), save_peer a k w)
  unfolding ping
  ping-register args k a call w u t h h' = rw (u, t, split_two k a h h') refl

  -- A call whose body has no semicolon between its quotes makes the hub panic.
  pub ping-panics :
      (args : String) (call : BridgeCall) (w : Env)
      → j.unmarshal_call args ≡ ok call
      → has_code b';' (trim call.body is_cut) ≡ false
      → ping j save_peer args w ≡ (panics, w)
  unfolding ping
  ping-panics args call w u h = rw (u, split_one (trim call.body is_cut) b';' h) refl
