-- ===== src/Store/Blob.antt =====
-- blob/blob.go, on a bucket of gocloud.dev/blob and an encryption of cryptfs, which are parameters.
use demedia_nostr.Prelude.{if◌then◌else◌, ◌==◌, String, Bool, true, false, Option, none, some}
use demedia_nostr.Prelude.Text.{◌<>◌}
use demedia_nostr.Nostr.{Error, message, error_text, Result, ok, err}
use demedia_nostr.Server

-- `Writer` is blob.Writer, which Close makes the file of.
pub record Bucket (Env : Type 0) : Type 1 where
  pub Writer : Type 0
  pub exists : String → Env → (Bool × Option Error) × Env
  pub new_writer : String → Env → Result Writer × Env
  pub write : Writer → String → Env → Option Error × Env
  pub close : Writer → Env → Option Error × Env
  pub signed_url : String → Env → Result String × Env
  pub new_reader : String → Env → Result String × Env
  pub delete : String → Env → Option Error × Env

-- fmt's "%v" of an error that may be nil
abbrev pub error_or_nil : Option Error → String
error_or_nil none = "<nil>"
error_or_nil (some e) = error_text e

abbrev pub copied : Option Error → Option Error → Option Error
copied none none = none
copied copy_err close_err =
    some (message ("copyErr=" <> error_or_nil copy_err <> " closeErr=" <> error_or_nil close_err))

module _ {Env : Type 0} (b : Bucket Env) (cryptor : Option (String → Result String)) where
  abbrev pub encrypt : Option (String → Result String) → String → Result String
  encrypt none data_text = ok data_text
  encrypt (some disfigure) data_text = disfigure data_text

  abbrev pub write_out : String → Result b.Writer × Env → Option Error × Env
  write_out encrypted (err e, w) = (some e, w)
  write_out encrypted (ok writer, w) =
      let copy = b.write writer encrypted w in
      let closed = b.close writer copy.1 in (copied copy.0 closed.0, closed.1)

  abbrev pub unless_exists : String → String → (Bool × Option Error) × Env → Option Error × Env
  unless_exists filepath encrypted ((true, e), w) = (none, w)
  unless_exists filepath encrypted ((false, some e), w) = (some e, w)
  unless_exists filepath encrypted ((false, none), w) =
      write_out encrypted (b.new_writer filepath w)

  abbrev pub save_encrypted : String → Result String → Env → Option Error × Env
  save_encrypted filepath (err e) w = (some e, w)
  save_encrypted filepath (ok encrypted) w = unless_exists filepath encrypted (b.exists filepath w)

  unfoldable pub save_file : String → String → Env → Option Error × Env
  save_file filepath data_text w = save_encrypted filepath (encrypt cryptor data_text) w

  unfoldable pub get_file_url : String → Env → Result String × Env
  get_file_url filepath w = b.signed_url filepath w

  abbrev pub wrapped : Result String → Result String
  wrapped (err e) = err (message ("get file: " <> error_text e))
  wrapped (ok r) = ok r

  unfoldable pub get_file : String → Env → Result String × Env
  get_file filepath w = let r = b.new_reader filepath w in (wrapped r.0, r.1)

  unfoldable pub delete : String → Env → Option Error × Env
  delete filepath w = b.delete filepath w

  -- A *BlobStorage, as the server sees it.
  abbrev pub blob_storage : Server.Blob Env
  blob_storage = record { save_file = save_file; get_file_url = get_file_url }

-- AuditTrail, and its GPG by its key file, since the signer is not read; a nil pointer is `none`.
pub record AuditTrail : Type 0 where
  pub id : String
  pub bucket_uri : String
  pub gpg : Option String

-- AuditTrail.Validate
unfoldable pub validate : Option AuditTrail → Option Error
validate none = none
validate (some cfg) = if cfg.bucket_uri == "" then some (message "missing bucket_uri") else none

-- BlobStorage, with what blob.OpenBucket and cryptfs.FromCryptor return.
pub record BlobStorage (Handle Cryptor : Type 0) : Type 0 where
  pub id : String
  pub bucket : Handle
  pub cryptor : Option Cryptor

module _ {Env Handle Cryptor : Type 0} (open_bucket : String → Env → Result Handle × Env)
    (gpg_encryptor : String → Result Cryptor)
    (close_bucket : Handle → Env → Option Error × Env) where
  abbrev pub with_cryptor : String → Handle → Option String → Result (BlobStorage Handle Cryptor)
  with_cryptor id bucket none = ok (record { id = id; bucket = bucket; cryptor = none })
  with_cryptor id bucket (some key_file) = elim (gpg_encryptor key_file) [
    | err e ↦ err e
    | ok c ↦ ok (record { id = id; bucket = bucket; cryptor = some c })
  ]

  abbrev pub with_bucket :
      AuditTrail → Result Handle × Env → Result (BlobStorage Handle Cryptor) × Env
  with_bucket cfg (err e, w) = (err e, w)
  with_bucket cfg (ok bucket, w) = (with_cryptor cfg.id bucket cfg.gpg, w)

  unfoldable pub new_blob_storage : AuditTrail → Env → Result (BlobStorage Handle Cryptor) × Env
  new_blob_storage cfg w = with_bucket cfg (open_bucket cfg.bucket_uri w)

  unfoldable pub close : Option (BlobStorage Handle Cryptor) → Env → Option Error × Env
  close none w = (none, w)
  close (some bs) w = close_bucket bs.bucket w
