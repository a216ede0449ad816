-- ===== src/Peer/Verdicts.antt =====
-- The verdict of a peer on a note that the hub has signed.
use demedia_nostr.Server.{Server}
