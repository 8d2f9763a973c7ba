-- ===== src/Roster/Removal.antt =====
-- `RemoveMember` keeps `DeviceFits`: the departing member's devices are revoked with it.
use herdr_remote_channel.Prelude.{
  ℕ, ◌+◌, String, ◌≡◌, inl, inr, true, false, ◌&&◌, some, arith, str_eq, eq_iff, Bool-cases,
}
use herdr_remote_channel.Prelude.BTreeMap.{
  BTreeMap, get, insert, get-insert, Every, Every-map_values,
}
use herdr_remote_channel.Crypto.{Primitives}
use herdr_remote_channel.Roster.State.{
  DeviceStatus, active, revoked, is_active_status, RosterDevice, RosterMember,
}
use herdr_remote_channel.Roster.Apply.{revoke_all}
use herdr_remote_channel.Roster.Invariant.{DeviceFits, Ends}

abbrev retired : RosterMember → RosterMember
retired m = record m { is_active = false }

Ends-next : (a e : ℕ) (s : DeviceStatus) → Ends a e s → Ends a (e + 1) s
Ends-next a e active h = tt
Ends-next a e (revoked x) h = (h.0, omega arith)

module _ (c : Primitives) (ms : BTreeMap RosterMember) (e : ℕ) (p : String) (m : RosterMember)
    (present : get p ms ≡ some m) where
  abbrev after : BTreeMap RosterMember
  after = insert p (retired m) ms

  -- A device of another member, or one that is revoked already, keeps its record.
  kept :
      (k : String) (d : RosterDevice)
      → (str_eq d.principal_id p && is_active_status d.status) ≡ false
      → DeviceFits c ms e k d
      → DeviceFits c after (e + 1) k d
  kept k d skip fits = elim (Bool-cases (str_eq p d.principal_id)) [
    | inl own ↦ record {
      named = fits.named;
      descriptor = fits.descriptor;
      derived = fits.derived;
      names = fits.names;
      owner = retired m;
      owned = ground (arith, get-insert p d.principal_id (retired m) ms);
      held = λ h. ground (arith, eq_iff p d.principal_id, eq_iff d.principal_id p);
      added = omega (arith, fits.added);
      ends = Ends-next d.added_in_epoch e d.status fits.ends;
    }
    | inr other ↦ record {
      named = fits.named;
      descriptor = fits.descriptor;
      derived = fits.derived;
      names = fits.names;
      owner = fits.owner;
      owned = ground (arith, get-insert p d.principal_id (retired m) ms, fits.owned);
      held = fits.held;
      added = omega (arith, fits.added);
      ends = Ends-next d.added_in_epoch e d.status fits.ends;
    }
  ]

  dropped :
      (k : String) (d : RosterDevice)
      → str_eq d.principal_id p ≡ true
      → DeviceFits c ms e k d
      → DeviceFits c after (e + 1) k (record d { status = revoked (e + 1) })
  dropped k d own fits = record {
    named = fits.named;
    descriptor = fits.descriptor;
    derived = fits.derived;
    names = fits.names;
    owner = retired m;
    owned = ground (
      arith,
      get-insert p d.principal_id (retired m) ms,
      eq_iff p d.principal_id,
      eq_iff d.principal_id p,
    );
    held = λ h. cc;
    added = omega (arith, fits.added);
    ends = (omega (arith, fits.added), omega arith);
  }

  pub revoke_all-DeviceFits :
      (ds : BTreeMap RosterDevice)
      → Every (DeviceFits c ms e) ds
      → Every (DeviceFits c after (e + 1)) (revoke_all p (e + 1) ds)
  unfolding revoke_all
  revoke_all-DeviceFits ds =
      Every-map_values (DeviceFits c ms e) (DeviceFits c after (e + 1)) _ ds λ k d fits.
        elim (Bool-cases (str_eq d.principal_id p && is_active_status d.status)) [
          | inl hit ↦ rw hit (dropped k d (ground arith) fits)
          | inr miss ↦ rw miss (kept k d miss fits)
        ]
