-- ===== src/Server/Erasing.antt =====
-- handlers.go and delete-event.go on a hub whose calls reach a peer with a Postgres storage: what is
-- left of the peer's table after an event of kind 5.
use mathlib.Core.Path.{subst}
use demedia_nostr.Prelude.{
  ℕ, String, Bool, true, false, ◌==◌, ◌&&◌, ◌||◌, not, Option, none, some, List, [], ◌∷◌, any, All,
  pos, int_beq, ◌≡◌, refl, sym, ap, arith, Bool-cases, inl, inr,
}
use demedia_nostr.Prelude.Map.{Map}
use demedia_nostr.Prelude.Go.{returns}
use demedia_nostr.Nostr.{Event, Tag, Nostr, ok}
use demedia_nostr.Bridge.Remote.{IsLossless, LeadsTo, remote_delete}
use demedia_nostr.Postgres.Table.{PostgresBackend, PeerInfo, has_id, exec, delete_event}
use demedia_nostr.Postgres.Select.{select, delete_where-select}
use demedia_nostr.Postgres.Backend.{Platform, storage}
use demedia_nostr.Server.{Server, Ipfs, World}
use demedia_nostr.Server.Events
use demedia_nostr.Server.Publish.{identified, handle_event}
use demedia_nostr.Server.Signatures.{handle_event_deletion}
use demedia_nostr.Server.Deletion.{
  event_of_id, before_delete, after_delete, delete_id, delete_tagged, delete_audio, delete_if_e,
  delete_tags,
}

-- A tag that asks for the deletion of a row of an author.
abbrev pub is_named_by : String → Tag → Event → Bool
is_named_by key [] r = false
is_named_by key (name ∷ []) r = false
is_named_by key (name ∷ id ∷ more) r = name == "e" && has_id id key r

-- A tag that is not empty and is not for an audio file.
abbrev pub has_other_name : Tag → Bool
has_other_name [] = false
has_other_name (name ∷ more) = not (name == "audio")

select_none_named : (rows : List Event) → select (λ r. true) rows ≡ rows
unfolding select
select_none_named [] = refl
select_none_named (r ∷ rows) = ap (λ rs. r ∷ rs) (select_none_named rows)

select-select :
    (p q : Event → Bool) (rows : List Event)
    → select (λ r. not (q r)) (select (λ r. not (p r)) rows) ≡ select (λ r. not (p r || q r)) rows
unfolding select
select-select p q [] = refl
select-select p q (r ∷ rows) = ground (arith, select-select p q rows)

module _ (s : Server PostgresBackend) (carrier : Map String String) (ws : ℕ) (n : Nostr)
    (p : Platform) (address : String) (peers : Map String PeerInfo) (key : String) where
  -- A table that does not fail, beside the known peers.
  abbrev pub with_rows : List Event → PostgresBackend
  with_rows rows = record { db = record { rows = rows; faults = [] }; peers = peers }

  -- json can write the call for an id.
  pub record IsSendable (id : String) : Type 0 where
    pub body : String
    pub args : String
    pub of_event : s.codec.marshal_event (event_of_id id key) ≡ ok body
    pub of_call :
        s.codec.marshal_call (record { body = body; method = "deleteEvent"; carrier = carrier })
        ≡ ok args

  abbrev pub IsSendableIf : Bool → String → Type 0
  IsSendableIf true id = IsSendable id
  IsSendableIf false id = Unit

  -- A tag "e", if json can write the call for its id; or another tag.
  abbrev pub IsSendableTag : Tag → Type 0
  IsSendableTag [] = Unit
  IsSendableTag (name ∷ []) = Unit
  IsSendableTag (name ∷ id ∷ more) = IsSendableIf (name == "e") id

  -- A hub whose calls for the author reach the peer.
  pub record IsHub : Type 0 where
    pub has_host : s.has_host ≡ true
    pub no_deleter : s.relay.advanced_deleter ≡ none
    pub lossless : IsLossless s.codec
    pub leads : LeadsTo s.codec s.network (storage n p) address
    pub knows :
        (rows : List Event)
        → s.relay.storage.get_peer key (with_rows rows) ≡ (address, with_rows rows)

  delete_event-with_rows :
      (id : String) (rows : List Event)
      → delete_event id key (with_rows rows)
        ≡ (none, with_rows (select (λ r. not (has_id id key r)) rows))
  unfolding delete_event exec
  delete_event-with_rows id rows =
      ap (λ rs. (none, with_rows rs)) (delete_where-select (has_id id key) rows)

  abbrev pub at_rows : World PostgresBackend → List Event → World PostgresBackend
  at_rows w rows = record w { env = with_rows rows }

  module _ (hub : IsHub) (w : World PostgresBackend) where
    remote_delete-with_rows :
        (id : String) (rows : List Event)
        → IsSendable id
        → Events.delete_event s carrier (event_of_id id key) (at_rows w rows)
          ≡ (returns none, at_rows w (select (λ r. not (has_id id key r)) rows))
    unfolding Events.delete_event storage
    remote_delete-with_rows id rows c =
        rw
          (
            hub.knows rows,
            remote_delete s.codec s.network (storage n p) address hub.lossless hub.leads carrier
                (event_of_id id key) c.body c.args (with_rows rows) c.of_event c.of_call,
            delete_event-with_rows id rows,
          )
          refl

    module _ (evt : Event) (same : evt.pub_key ≡ key) where
      delete_tagged_lem :
          (id : String) (rows : List Event)
          → IsSendable id
          → delete_tagged s carrier ws evt id (at_rows w rows)
            ≡ (returns false, at_rows w (select (λ r. not (has_id id key r)) rows))
      unfolding delete_tagged before_delete after_delete delete_id
      delete_tagged_lem id rows c =
          simp (hub.no_deleter, hub.has_host, same, remote_delete-with_rows id rows c)

      delete_if_e_lem :
          (tag : Tag) (rows : List Event)
          → IsSendableTag tag
          → delete_if_e s carrier ws evt tag (at_rows w rows)
            ≡ (returns false, at_rows w (select (λ r. not (is_named_by key tag r)) rows))
      unfolding delete_if_e
      delete_if_e_lem [] rows c =
          ap (λ rs. (returns false, at_rows w rs)) (sym (select_none_named rows))
      delete_if_e_lem (name ∷ []) rows c =
          ap (λ rs. (returns false, at_rows w rs)) (sym (select_none_named rows))
      delete_if_e_lem (name ∷ id ∷ more) rows c = elim (Bool-cases (name == "e")) [
        | inl e ↦ rw e (delete_tagged_lem id rows (subst (λ b. IsSendableIf b id) e c))
        | inr e ↦ rw e (ap (λ rs. (returns false, at_rows w rs)) (sym (select_none_named rows)))
      ]

      delete_audio_other :
          (i : Option (Ipfs PostgresBackend)) (tag : Tag) (rows : List Event)
          → has_other_name tag ≡ true
          → delete_audio s carrier ws evt i tag (at_rows w rows) ≡ (returns false, at_rows w rows)
      unfolding delete_audio
      delete_audio_other i [] rows o = absurd (ground (arith, o))
      delete_audio_other none (name ∷ more) rows o = refl
      delete_audio_other (some i) (name ∷ []) rows o =
          let other : (name == "audio") ≡ false = ground (arith, o) in rw other refl
      delete_audio_other (some i) (name ∷ url ∷ more) rows o =
          let other : (name == "audio") ≡ false = ground (arith, o) in rw other refl

      delete_tags_lem :
          (tags : List Tag) (rows : List Event)
          → All (λ tag. (has_other_name tag ≡ true) × IsSendableTag tag) tags
          → delete_tags s carrier ws evt tags (at_rows w rows)
            ≡ (returns tt, at_rows w (select (λ r. not (any (λ t. is_named_by key t r) tags)) rows))
      unfolding delete_tags
      delete_tags_lem [] rows h =
          ap (λ rs. (returns tt, at_rows w rs)) (sym (select_none_named rows))
      delete_tags_lem (tag ∷ tags) rows h =
          let left : List Event = select (λ r. not (is_named_by key tag r)) rows in
          rw
            (
              delete_if_e_lem tag rows h.0.1,
              delete_audio_other s.ipfs tag left h.0.0,
              delete_tags_lem tags left h.1,
            )
            (ap (λ rs. (returns tt, at_rows w rs))
              (select-select (is_named_by key tag) (λ r. any (λ t. is_named_by key t r) tags) rows))

  -- An event of kind 5, whether its signature is found valid or invalid, that arrives at a hub whose
  -- calls for the event's public key reach, whatever the table holds, a peer with a Postgres table
  -- that does not fail, and none of whose tags is empty or named "audio", leaves of the peer's table
  -- exactly the rows that no tag "e" of the event names by its second item, and the rows of other
  -- public keys; nothing else changes, and nothing is written to a connection. What the hub's storage
  -- and the peer's keep is one state here. The relay has no AdvancedDeleter, and json reads back what
  -- it writes and can write the calls.
  pub handle_event_erases :
      (raw : String) (evt : Event) (valid : Bool) (w : World PostgresBackend) (rows : List Event)
      → IsHub
      → s.codec.unmarshal_event raw ≡ ok evt
      → s.nostr.check_signature (identified s evt) ≡ ok valid
      → int_beq evt.kind (pos 5) ≡ true
      → evt.pub_key ≡ key
      → All (λ tag. (has_other_name tag ≡ true) × IsSendableTag tag) evt.tags
      → handle_event s carrier ws raw (at_rows w rows)
        ≡ (returns "", at_rows w (select (λ r. not (any (λ t. is_named_by key t r) evt.tags)) rows))
  handle_event_erases raw evt valid w rows hub d c k same h =
      rw
        (
          handle_event_deletion s carrier ws raw evt valid (at_rows w rows) d c k,
          delete_tags_lem hub w (identified s evt) same evt.tags rows h,
        )
        refl
