-- ===== src/Server/Restrict.antt =====
-- handlers.go: which filters a relay with authentication refuses.
use demedia_nostr.Prelude.{
  String, Bool, false, ◌==◌, not, ◌&&◌, Option, none, some, List, [], ◌∷◌, any, length, ltb, pos,
  int_beq, if◌then◌else◌, string_eq,
}
use demedia_nostr.Prelude.Map.{lookup}
use demedia_nostr.Nostr.{Filter}

-- A nil slice as a list.
abbrev pub or_empty {ℓ} : {A : Type ℓ} → Option (List A) → List A
or_empty none = []
or_empty (some xs) = xs

abbrev pub is_only : String → List String → Bool
is_only who [] = false
is_only who (x ∷ []) = x == who
is_only who (x ∷ y ∷ xs) = false

-- The receivers of a filter: Tags["p"].
abbrev pub receivers_of : Filter → List String
receivers_of f = or_empty (lookup "p" f.tags)

unfoldable pub unauthenticated : String
unauthenticated =
    "restricted: this relay does not serve kind-4 to unauthenticated users, does your client implement NIP-42?"

unfoldable pub unauthorized : String
unauthorized = "restricted: authenticated user does not have authorization for requested filters."

-- The notice with which a filter is refused, for a connection that is authenticated as a public
-- key, or "" if it is not.
unfoldable pub restriction : String → Filter → Option String
restriction authed f =
    let senders = or_empty f.authors in
    let receivers = receivers_of f in
    if not (any (λ k. int_beq k (pos 4)) (or_empty f.kinds))
    then none
    else if authed == ""
    then some unauthenticated
    else if is_only authed senders && ltb (length receivers) 2
    then none
    else if is_only authed receivers && ltb (length senders) 2
    then none
    else some unauthorized

abbrev pub guard : Option String → String → Filter → Option String
guard none authed f = none
guard (some url) authed f = restriction authed f
