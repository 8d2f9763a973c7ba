-- ===== src/Roster/Chain.antt =====
-- The head hash commits to the whole log: a rewritten or forked history has another head.
use mathlib.Core.Path.{subst}
use herdr_remote_channel.Prelude.{ℕ, ◌+◌, String, ◌≡◌, refl, sym, ◌∙◌, List, [], ◌∷◌, arith, length}
use herdr_remote_channel.Prelude.BTreeMap.{get, contains_key}
use herdr_remote_channel.Errors.{
  duplicate_invite, unknown_member, ok, ok_or, reject_if, try_then_any, try_then_ok, Result-cases,
}
use herdr_remote_channel.Protocol.Control.{
  ControlEntryPayload, ControlOperation, create_invite, revoke_invite, add_member, remove_member,
  add_device, revoke_device, rotate_device_key, rotate_principal_key, update_policy,
  rollover_repository,
}
use herdr_remote_channel.Crypto.{Primitives}
use herdr_remote_channel.Roster.State.{Roster}
use herdr_remote_channel.Roster.Admission.{
  check_certificates, check_admission, admit_principal, admit_device, revocable, add_principal,
}
use herdr_remote_channel.Roster.Admission
use herdr_remote_channel.Roster.Apply.{
  Entry, entry_hash, expect_open, removable, apply_operation, apply, replay, expected_epoch,
}
use herdr_remote_channel.Roster.Authority.{apply-Accepts, Linked, check_entry-Linked}

abbrev pub payloads : List Entry → List ControlEntryPayload
payloads [] = []
payloads (e ∷ es) = e.payload ∷ payloads es

length-payloads : (es : List Entry) → length (payloads es) ≡ length es
length-payloads [] = refl
length-payloads (e ∷ es) = omega (arith, length-payloads es)

module _ (c : Primitives) where
  -- No two entries have the same hash: what SHA-256 and the canonical encoding promise.
  abbrev pub DistinctHashes : Type 0
  DistinctHashes =
      (x y : ControlEntryPayload) (h : String)
      → entry_hash c x ≡ ok h
      → entry_hash c y ≡ ok h
      → x ≡ y

  module _ (id : String) where
    abbrev InChannel : Roster → Type 0
    InChannel r = r.channel_id ≡ id

    admit_device-InChannel :
        (x : _) (e : ℕ) (r : Roster) → InChannel r → InChannel (admit_device c x e r).1
    unfolding admit_device
    admit_device-InChannel x e r h = try_then_any InChannel (check_admission c x r) r _ h λ _ _. h

    revoke_device-InChannel :
        (k : String) (e : ℕ) (r : Roster)
        → InChannel r
        → InChannel (Admission.revoke_device k e r).1
    unfolding Admission.revoke_device
    revoke_device-InChannel k e r h = try_then_any InChannel (revocable k r) r _ h λ _ _. h

    pub apply_operation-InChannel :
        (op : ControlOperation) (e : ℕ) (r : Roster)
        → InChannel r
        → InChannel (apply_operation c op e r).1
    unfolding apply_operation admit_principal add_principal
    apply_operation-InChannel (add_member i p) e r h =
        ground (arith, Result-cases (check_certificates c p.devices p))
    apply_operation-InChannel (remove_member p) e r h =
        try_then_any InChannel (removable p r) r _ h λ _ _. h
    apply_operation-InChannel (add_device x) e r h = admit_device-InChannel x e r h
    apply_operation-InChannel (revoke_device k) e r h = revoke_device-InChannel k e r h
    apply_operation-InChannel (rotate_device_key old x) e r h =
        let (done, r') = Admission.revoke_device old e r in
        let first = revoke_device-InChannel old e r h in
        try_then_any InChannel done r' _ first λ _ _. admit_device-InChannel x e r' first
    apply_operation-InChannel (rotate_principal_key p key) e r h =
        try_then_any InChannel (ok_or (get p r.members) (unknown_member p)) r _ h λ _ _. h
    apply_operation-InChannel (create_invite i until) e r h =
        try_then_any InChannel (reject_if (contains_key i r.invites) (duplicate_invite i)) r _ h
          λ _ _. h
    apply_operation-InChannel (revoke_invite i) e r h =
        try_then_any InChannel (expect_open i (get i r.invites)) r _ h λ _ _. h
    apply_operation-InChannel (update_policy _) e r h = h
    apply_operation-InChannel (rollover_repository _) e r h = h

  -- How the position of the log moves over one accepted entry.
  pub record Extends (r : Roster) (entry : Entry) (r' : Roster) : Type 0 where
    pub head : Linked c r entry r'.head_hash
    pub sequence : r'.sequence ≡ r.sequence + 1
    pub epoch : r'.epoch ≡ expected_epoch r entry.payload.operation
    pub channel : r'.channel_id ≡ r.channel_id

  -- An accepted entry names the roster's channel, the next sequence, the head hash and the epoch
  -- that its operation calls for; the roster then stands at that sequence and epoch, in the same
  -- channel, with the entry's own hash as its head.
  pub apply-Extends :
      (r : Roster) (entry : Entry)
      → (apply c r entry).0 ≡ ok tt
      → Extends r entry (apply c r entry).1
  apply-Extends r entry h =
      let a = apply-Accepts c r entry h in
      let link = check_entry-Linked c r entry a.head a.checked in
      let op = entry.payload.operation in
      subst (Extends r entry) (sym a.result) (record {
        head = link;
        sequence = link.sequence;
        epoch = refl;
        channel = apply_operation-InChannel r.channel_id op (expected_epoch r op) r refl;
      })

  -- The entries' payloads lead from one head to another.
  abbrev Leads : String → List ControlEntryPayload → String → Type 0
  Leads h [] z = h ≡ z
  Leads h (p ∷ ps) z =
      (p.previous_hash ≡ h) × ((k : String) × (entry_hash c p ≡ ok k) × Leads k ps z)

  Leads-unique :
      DistinctHashes
      → (h h' z : String) (ps qs : List ControlEntryPayload) → Leads h ps z
      → Leads h' qs z
      → length ps ≡ length qs
      → (h ≡ h') × (ps ≡ qs)
  Leads-unique distinct h h' z [] [] a b n = (a ∙ sym b, refl)
  Leads-unique distinct h h' z [] (q ∷ qs) a b n = absurd (omega arith)
  Leads-unique distinct h h' z (p ∷ ps) [] a b n = absurd (omega arith)
  Leads-unique distinct h h' z (p ∷ ps) (q ∷ qs) (pa, (k, hp, ra)) (qb, (l, hq, rb)) n =
      let (same, rest) = Leads-unique distinct k l z ps qs ra rb (omega arith) in
      let first = distinct p q l (hp ∙ ground (arith, same)) hq in
      (cc (first, pa, qb), cc (first, rest))

  record Replayed (r : Roster) (es : List Entry) (s : Roster) : Type 0 where
    leads : Leads r.head_hash (payloads es) s.head_hash
    sequence : s.sequence ≡ r.sequence + length es
    channel : s.channel_id ≡ r.channel_id

  replay-Replayed :
      (r : Roster) (es : List Entry) → (replay c r es).0 ≡ ok tt → Replayed r es (replay c r es).1
  unfolding replay
  replay-Replayed r [] h = record { leads = refl; sequence = omega arith; channel = refl }
  replay-Replayed r (e ∷ es) h =
      let (done, r') = apply c r e in
      try_then_ok (Replayed r (e ∷ es)) done r' _ tt
        (λ _ accepted more.
          let x = apply-Extends r e accepted in
          let rest = replay-Replayed r' es more in
          record {
            leads = (x.head.previous, (r'.head_hash, x.head.hashed, rest.leads));
            sequence = omega (arith, x.sequence, rest.sequence);
            channel = rest.channel ∙ x.channel;
          })
        h

  -- Two readers that start at one sequence and whose accepted replays end at the same head hash and
  -- sequence started from the same head and applied the same payloads, provided that no two entries
  -- have one hash.
  pub replay_same_head :
      DistinctHashes
      → (r s : Roster) (es fs : List Entry) → r.sequence ≡ s.sequence
      → (replay c r es).0 ≡ ok tt
      → (replay c s fs).0 ≡ ok tt
      → (replay c r es).1.head_hash ≡ (replay c s fs).1.head_hash
      → (replay c r es).1.sequence ≡ (replay c s fs).1.sequence
      → (r.head_hash ≡ s.head_hash) × (payloads es ≡ payloads fs)
  replay_same_head distinct r s es fs start h k head sequence =
      let a = replay-Replayed r es h in
      let b = replay-Replayed s fs k in
      Leads-unique distinct r.head_hash s.head_hash (replay c s fs).1.head_hash (payloads es)
        (payloads fs) (subst (Leads r.head_hash (payloads es)) head a.leads) b.leads
        (omega (arith, length-payloads es, length-payloads fs, a.sequence, b.sequence))
