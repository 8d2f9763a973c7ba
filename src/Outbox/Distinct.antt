-- ===== src/Outbox/Distinct.antt =====
-- crates/hrc-protocol/src/recipients.rs: the devices of a recipient set are distinct.
use mathlib.Core.Path.{subst}
use herdr_remote_channel.Prelude.{
  String, false, ◌≡◌, refl, inl, inr, List, [], ◌∷◌, All, contains, str_eq, str_lt, eq_iff, arith,
  Bool-cases,
}
use herdr_remote_channel.Errors.{ProtocolError, Result, ok, ok_same, bind_succeeds}
use herdr_remote_channel.Protocol.Envelope.{RecipientDevices}
use herdr_remote_channel.Prelude.TextOrder.{str_lt_antisym, str_lt_trans, str_lt_asym}
use herdr_remote_channel.Outbox.Recipients.{
  insert_sorted, keep_first, sort_ids, dedup, check_ids, reject_empty, recipient_devices,
}

-- No text is smaller than one before it.
abbrev From : String → List String → Type 0
From id ids = All (λ later. str_lt later id ≡ false) ids

abbrev IsSorted : List String → Type 0
IsSorted [] = Unit
IsSorted (id ∷ ids) = From id ids × IsSorted ids

-- No text stands in the list twice.
abbrev pub IsDistinct : List String → Type 0
IsDistinct [] = Unit
IsDistinct (id ∷ ids) = (contains ids id ≡ false) × IsDistinct ids

less-From : (a b : String) (ids : List String) → str_lt b a ≡ false → From b ids → From a ids
less-From a b [] h g = tt
less-From a b (x ∷ ids) h (g, gs) = (str_lt_trans a b x h g, less-From a b ids h gs)

insert_sorted-From :
    (a id : String) (ids : List String)
    → str_lt id a ≡ false
    → From a ids
    → From a (insert_sorted id ids)
insert_sorted-From a id [] h g = (h, tt)
insert_sorted-From a id (x ∷ ids) h (g, gs) = elim (Bool-cases (str_lt x id)) [
  | inl less ↦ rw (less) (g, insert_sorted-From a id ids h gs)
  | inr more ↦ rw (more) (h, (g, gs))
]

insert_sorted-IsSorted :
    (id : String) (ids : List String) → IsSorted ids → IsSorted (insert_sorted id ids)
insert_sorted-IsSorted id [] s = (tt, tt)
insert_sorted-IsSorted id (x ∷ ids) (from, s) = elim (Bool-cases (str_lt x id)) [
  | inl less ↦
      rw (less)
        (insert_sorted-From x id ids (str_lt_asym x id less) from, insert_sorted-IsSorted id ids s)
  | inr more ↦ rw (more) ((more, less-From id x ids more from), (from, s))
]

sort_ids-IsSorted : (ids : List String) → IsSorted (sort_ids ids)
unfolding sort_ids
sort_ids-IsSorted [] = tt
sort_ids-IsSorted (id ∷ ids) = insert_sorted-IsSorted id (sort_ids ids) (sort_ids-IsSorted ids)

-- A text that is not the first of a sorted list, and not greater, is not in it.
not_contained :
    (id x : String) (ids : List String)
    → str_eq id x ≡ false
    → str_lt x id ≡ false
    → From x ids
    → contains ids id ≡ false
not_contained id x [] other above from = refl
not_contained id x (y ∷ ids) other above (first, from) =
    ground (
      arith,
      eq_iff y id,
      eq_iff id x,
      str_lt_antisym id x,
      not_contained id x ids other above from,
    )

dedup-From : (a : String) (ids : List String) → From a ids → From a (dedup ids)
unfolding dedup
dedup-From a [] h = tt
dedup-From a (id ∷ ids) (h, hs) = keep_first-From a id (dedup ids) h (dedup-From a ids hs)
  where
    keep_first-From :
        (a id : String) (ids : List String)
        → str_lt id a ≡ false
        → From a ids
        → From a (keep_first id ids)
    keep_first-From a id [] h g = (h, tt)
    keep_first-From a id (x ∷ ids) h g = elim (Bool-cases (str_eq id x)) [
      | inl same ↦ rw (same) g
      | inr other ↦ rw (other) (h, g)
    ]

keep_first-IsDistinct :
    (id : String) (ids : List String)
    → From id ids
    → IsSorted ids
    → IsDistinct ids
    → IsSorted (keep_first id ids) × IsDistinct (keep_first id ids)
keep_first-IsDistinct id [] from s d = ((tt, tt), (refl, tt))
keep_first-IsDistinct id (x ∷ ids) (first, from) (below, s) d = elim (Bool-cases (str_eq id x)) [
  | inl same ↦ rw (same) ((below, s), d)
  | inr other ↦ rw (other) (
    ((first, from), (below, s)),
    (ground (arith, eq_iff x id, eq_iff id x, not_contained id x ids other first below), d),
  )
]

dedup-IsDistinct :
    (ids : List String) → IsSorted ids → IsSorted (dedup ids) × IsDistinct (dedup ids)
unfolding dedup
dedup-IsDistinct [] s = (tt, tt)
dedup-IsDistinct (id ∷ ids) (from, s) =
    let rest = dedup-IsDistinct ids s in
    keep_first-IsDistinct id (dedup ids) (dedup-From id ids from) (rest.0) (rest.1)

-- The devices that `RecipientDevices::new` keeps are distinct.
pub recipient_devices-IsDistinct :
    (hash : List String → Result ProtocolError String) (ids : List String)
    (recipients : RecipientDevices)
    → recipient_devices hash ids ≡ ok recipients
    → IsDistinct recipients.device_ids
unfolding recipient_devices
recipient_devices-IsDistinct hash ids recipients h =
    let kept = dedup (sort_ids ids) in
    let (_, _, h2) = bind_succeeds (reject_empty kept) _ recipients h in
    let (_, _, h3) = bind_succeeds (check_ids kept) _ recipients h2 in
    let (devices_hash, _, same) = bind_succeeds (hash kept) _ recipients h3 in
    let chosen : RecipientDevices = record { device_ids = kept; devices_hash = devices_hash } in
    subst (λ r. IsDistinct r.device_ids) (ok_same (ok chosen) chosen recipients refl same)
      ((dedup-IsDistinct (sort_ids ids) (sort_ids-IsSorted ids)).1)
