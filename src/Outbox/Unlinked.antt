-- ===== src/Outbox/Unlinked.antt =====
-- crates/hrc-storage/src/outbox.rs: the links of a message to distinct devices can be inserted.
use herdr_remote_channel.Prelude.{
  String, Bool, false, not, ◌≡◌, refl, List, [], ◌∷◌, ◌++◌, All, contains, str_eq, eq_iff, arith,
}
use herdr_remote_channel.Errors.{ok}
use herdr_remote_channel.Inbound.Queries.{any, filter}
use herdr_remote_channel.Outbox.{RecipientRow}
use herdr_remote_channel.Outbox.Queries.{insert_recipients, recipient_clash}
use herdr_remote_channel.Outbox.Distinct.{IsDistinct}

-- No link to one of these devices is there for the message.
abbrev pub Unlinked : String → List RecipientRow → List String → Type 0
Unlinked message_id links devices =
    All
      (λ id.
        any (recipient_clash (record { message_id = message_id; device_id = id })) links ≡ false)
      devices

any-append :
    (test : RecipientRow → Bool) (links : List RecipientRow) (link : RecipientRow)
    → any test links ≡ false
    → test link ≡ false
    → any test (links ++ (link ∷ [])) ≡ false
any-append test [] link h k = ground arith
any-append test (x ∷ links) link h k = ground (arith, any-append test links link)

insert_recipients-Unlinked :
    (message_id id : String) (links : List RecipientRow) (devices : List String)
    → contains devices id ≡ false
    → Unlinked message_id links devices
    → Unlinked message_id
        (links ++ (record { message_id = message_id; device_id = id } ∷ []))
        devices
insert_recipients-Unlinked message_id id links [] other free = tt
insert_recipients-Unlinked message_id id links (d ∷ devices) other (free, frees) = (
  any-append (recipient_clash (record { message_id = message_id; device_id = d })) links
      (record { message_id = message_id; device_id = id }) free
      (ground (arith, eq_iff id d, eq_iff d id)),
  insert_recipients-Unlinked message_id id links devices (ground arith) frees,
)

pub insert_recipients_succeeds :
    (message_id : String) (devices : List String) (links : List RecipientRow)
    → IsDistinct devices
    → Unlinked message_id links devices
    → (after : List RecipientRow) × (insert_recipients message_id devices links ≡ ok after)
unfolding insert_recipients
insert_recipients_succeeds message_id [] links distinct free = (links, refl)
insert_recipients_succeeds message_id (d ∷ devices) links (once, distinct) (free, frees) =
    let rest =
      insert_recipients_succeeds message_id devices
        (links ++ (record { message_id = message_id; device_id = d } ∷ [])) distinct
        (insert_recipients-Unlinked message_id d links devices once frees) in
    (rest.0, rw (free) rest.1)

pub filter-Unlinked :
    (message_id : String) (links : List RecipientRow) (devices : List String)
    → Unlinked message_id (filter (λ link. not (str_eq link.message_id message_id)) links) devices
filter-Unlinked message_id links [] = tt
filter-Unlinked message_id links (d ∷ devices) =
    (unlinked links, filter-Unlinked message_id links devices)
  where
    unlinked :
        (links : List RecipientRow)
        → any
            (recipient_clash (record { message_id = message_id; device_id = d }))
            (filter (λ link. not (str_eq link.message_id message_id)) links)
          ≡ false
    unlinked [] = refl
    unlinked (x ∷ links) = ground (arith, unlinked links)
