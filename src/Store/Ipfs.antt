-- ===== src/Store/Ipfs.antt =====
-- ipfs/ipfs.go, on the shell of go-ipfs-api, which is a parameter.
use demedia_nostr.Prelude.{String, Option, not, ◌&&◌, ◌==◌, if◌then◌else◌}
use demedia_nostr.Prelude.Text.{◌<>◌}
use demedia_nostr.Nostr.{Error, Result, ok, err}
use demedia_nostr.Server.{Ipfs}

pub record Shell (Env : Type 0) : Type 0 where
  -- the CID under which the bytes are added
  pub add : String → Env → Result String × Env
  -- the error of Cat, or what ioutil.ReadAll gives
  pub cat : String → Env → Result (Result String) × Env
  pub unpin : String → Env → Option Error × Env

-- The HTTP client of http-clinet.go, whose RoundTrip adds a project's id and secret to a request.
pub record AuthTransport : Type 0 where
  pub project_id : String
  pub project_secret : String

unfoldable pub new_http_client : String → String → AuthTransport
new_http_client project_id project_secret = record {
  project_id = project_id;
  project_secret = project_secret;
}

-- RoundTrip, on SetBasicAuth and the RoundTrip of http.DefaultTransport.
unfoldable pub round_trip :
    {Request Answer : Type 0}
    → (Request → String → String → Request)
    → (Request → Answer)
    → AuthTransport
    → Request
    → Answer
round_trip set_basic_auth round_trip_default t r =
    round_trip_default (set_basic_auth r t.project_id t.project_secret)

-- NewIPFSClient: the shell that is made, of an address, or of one and an HTTP client.
unfoldable pub new_ipfs_client :
    {S : Type 0} → (String → S) → (String → AuthTransport → S) → String → String → String → S
unfolding new_http_client
new_ipfs_client new_shell new_shell_with_client api_address project_id project_secret =
    if not (project_id == "") && not (project_secret == "")
    then new_shell_with_client api_address (new_http_client project_id project_secret)
    else new_shell api_address

abbrev pub gateway : String
gateway = "https://gateway.ipfs.io/ipfs/"

abbrev pub url_of_cid : Result String → Result String
url_of_cid (err e) = err e
url_of_cid (ok cid) = ok (gateway <> cid)

abbrev pub read_all : Result (Result String) → Result String
read_all (err e) = err e
read_all (ok r) = r

module _ {Env : Type 0} (sh : Shell Env) where
  unfoldable pub upload_file : String → Env → Result String × Env
  upload_file data_text w = let r = sh.add data_text w in (url_of_cid r.0, r.1)

  unfoldable pub download_file : String → Env → Result String × Env
  download_file cid w = let r = sh.cat cid w in (read_all r.0, r.1)

  unfoldable pub delete_file : String → Env → Option Error × Env
  delete_file cid w = sh.unpin cid w

  -- NewIPFSClient, as the server sees it.
  abbrev pub ipfs_client : Ipfs Env
  ipfs_client = record { upload_file = upload_file; delete_file = delete_file }
