-- ===== src/Server/Nip11.antt =====
-- handlers.go: handleNIP11, whose answer is the JSON of the document.
use demedia_nostr.Prelude.{ℕ, String, Option, none, some, List, [], ◌∷◌}
use demedia_nostr.Storage.{Relay}

-- nip11.RelayInformationDocument, as far as the program fills it.
pub record RelayInformationDocument : Type 0 where
  pub name : String
  pub description : String
  pub pub_key : String
  pub contact : String
  pub supported_nips : List ℕ
  pub software : String
  pub version : String

abbrev pub nips_of : Option String → List ℕ
nips_of none = 9 ∷ 11 ∷ 12 ∷ 15 ∷ 16 ∷ 20 ∷ []
nips_of (some url) = 9 ∷ 11 ∷ 12 ∷ 15 ∷ 16 ∷ 20 ∷ 42 ∷ []

-- `informationer` is what GetNIP11InformationDocument returns, if the relay has that method.
unfoldable pub handle_nip11 :
    {Env : Type 0} → Relay Env → String → Option RelayInformationDocument → RelayInformationDocument
handle_nip11 relay name (some info) = info
handle_nip11 relay name none = record {
  name = name;
  description = "relay powered by the relayer framework";
  pub_key = "~";
  contact = "~";
  supported_nips = nips_of relay.auther;
  software = "https://github.com/sithumonline/demedia-nostr/relayer";
  version = "~";
}
