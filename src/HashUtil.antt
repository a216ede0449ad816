-- ===== src/HashUtil.antt =====
-- relayer/hashutil/hashutil.go. The packages of go-ethereum and crypto/sha256 are the fields of
-- a record; json.Marshal stands for its use on a slice of bytes.
pub mod Laws
use demedia_nostr.Prelude.{String, Bool, List, [], ◌∷◌, map}
use demedia_nostr.Prelude.Text.{◌<>◌, join, itoa}
use demedia_nostr.Prelude.Hex.{Bytes}
use demedia_nostr.Prelude.Go.{Go, returns, panics, blocks}
use demedia_nostr.Nostr.{Event, Tag, Error, Result, ok, err}

pub record Crypto : Type 1 where
  pub PrivateKey : Type 0
  pub PublicKey : Type 0
  pub public_key : PrivateKey → PublicKey
  pub marshal : Bytes → Result Bytes
  pub sha256 : String → Bytes
  pub keccak256 : Bytes → Bytes
  pub sign : Bytes → PrivateKey → Result Bytes
  pub encode : Bytes → String
  pub decode : String → Result Bytes
  pub from_ecdsa_pub : PublicKey → Bytes
  pub verify_signature : Bytes → Bytes → Bytes → Bool

-- sig[:len(sig)-1], where the slice is not empty
unfoldable pub drop_last : Bytes → Bytes
drop_last [] = []
drop_last (b ∷ []) = []
drop_last (b ∷ b' ∷ bs) = b ∷ drop_last (b' ∷ bs)

-- The same as the program has it: of an empty slice the bound is -1, and the program panics.
abbrev pub without_recovery_id : Bytes → Go Bytes
without_recovery_id [] = panics
without_recovery_id (b ∷ bs) = returns (drop_last (b ∷ bs))

module _ (c : Crypto) where
  unfoldable pub get_sing : Bytes → c.PrivateKey → Result String
  get_sing input prv = elim (c.marshal input) [
    | err e ↦ err e
    | ok body ↦ elim (c.sign (c.keccak256 body) prv) [ err e ↦ err e | ok sig ↦ ok (c.encode sig) ]
  ]

  unfoldable pub get_verification : String → Bytes → c.PublicKey → Go (Result Bool)
  get_verification encoded input pub_key = elim (c.decode encoded) [
    | err e ↦ returns (err e)
    | ok sig ↦ elim (c.marshal input) [
      | err e ↦ returns (err e)
      | ok body ↦ elim (without_recovery_id sig) [
        | returns short ↦
            returns (ok (c.verify_signature (c.from_ecdsa_pub pub_key) (c.keccak256 body) short))
        | panics ↦ panics
        | blocks ↦ blocks
      ]
    ]
  ]

  unfoldable pub get_sha256 : String → Bytes
  get_sha256 p = c.sha256 p

-- fmt.Sprintf("[\"%s\"]", strings.Join(tag, "\",\""))
abbrev pub stringify_tag : Tag → String
stringify_tag tag = "[\"" <> join tag "\",\"" <> "\"]"

unfoldable pub stringify_event : Event → String
stringify_event evt =
    let sx = map stringify_tag evt.tags in
    "[0,\""
    <> evt.pub_key
    <> "\","
    <> itoa evt.created_at
    <> ","
    <> itoa evt.kind
    <> ",["
    <> join sx ","
    <> "],\""
    <> evt.content
    <> "\"]"
