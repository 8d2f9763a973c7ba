-- ===== src/Roster/Preserves.antt =====
-- Each write that an operation makes to the roster's tables keeps `DeviceFits`.
use herdr_remote_channel.Prelude.{
  ℕ, ◌+◌, ◌≤◌, String, ◌≡◌, refl, inl, inr, true, none, some, List, [], ◌∷◌, All, arith, str_eq,
  eq_iff, Bool-cases,
}
use herdr_remote_channel.Prelude.BTreeMap.{BTreeMap, get, insert, get-insert, Every, Every-insert}
use herdr_remote_channel.Protocol.Control.{DeviceCertificate}
use herdr_remote_channel.Crypto.{Primitives}
use herdr_remote_channel.Roster.State.{active, revoked, RosterDevice, RosterMember}
use herdr_remote_channel.Roster.Admission.{device_of, insert_device, insert_devices}
use herdr_remote_channel.Roster.Certified.{Certifies}
use herdr_remote_channel.Roster.Invariant.{DeviceFits, Ends}

-- Members stay, and active ones stay active.
abbrev pub Keeps : BTreeMap RosterMember → BTreeMap RosterMember → Type 0
Keeps ms ms' =
    Every
      (λ p m.
        (m' : RosterMember) × (get p ms' ≡ some m') × (m.is_active ≡ true → m'.is_active ≡ true))
      ms

pub Keeps-insert_new :
    (p : String) (v : RosterMember) (ms : BTreeMap RosterMember)
    → get p ms ≡ none
    → Keeps ms (insert p v ms)
Keeps-insert_new p v ms absent j m found =
    (m, ground (arith, get-insert p j v ms, eq_iff p j), λ h. h)

pub Keeps-insert_same :
    (p : String) (v w : RosterMember) (ms : BTreeMap RosterMember)
    → get p ms ≡ some w
    → v.is_active ≡ w.is_active
    → Keeps ms (insert p v ms)
Keeps-insert_same p v w ms present same j m found = elim (Bool-cases (str_eq p j)) [
  | inl e ↦ (v, ground (arith, get-insert p j v ms), λ h. ground (arith, eq_iff p j))
  | inr e ↦ (m, ground (arith, get-insert p j v ms), λ h. h)
]

module _ (c : Primitives) where
  pub DeviceFits-later :
      (ms ms' : BTreeMap RosterMember) (e e' : ℕ)
      → Keeps ms ms'
      → e ≤ e'
      → (k : String) (d : RosterDevice) → DeviceFits c ms e k d
      → DeviceFits c ms' e' k d
  DeviceFits-later ms ms' e e' keeps le k d fits =
      let (m', found, still) = keeps d.principal_id fits.owner fits.owned in
      record {
        named = fits.named;
        descriptor = fits.descriptor;
        derived = fits.derived;
        names = fits.names;
        owner = m';
        owned = found;
        held = λ h. still (fits.held h);
        added = omega arith;
        ends = later d.status fits.ends;
      }
    where
      later : (s : _) → Ends d.added_in_epoch e s → Ends d.added_in_epoch e' s
      later active h = tt
      later (revoked x) h = (h.0, omega arith)

  pub device_of-DeviceFits :
      (ms : BTreeMap RosterMember) (e : ℕ) (p : String) (m : RosterMember) (x : DeviceCertificate)
      → get p ms ≡ some m
      → m.is_active ≡ true
      → Certifies c p x
      → DeviceFits c ms e x.payload.device_id (device_of x e)
  device_of-DeviceFits ms e p m x found is_active certified = record {
    named = refl;
    descriptor = x.payload.descriptor;
    derived = certified.derived;
    names = refl;
    owner = m;
    owned = rw certified.names found;
    held = λ _. is_active;
    added = omega arith;
    ends = tt;
  }

  pub insert_devices-DeviceFits :
      (ms : BTreeMap RosterMember) (e : ℕ) (p : String) (m : RosterMember)
      → get p ms ≡ some m
      → m.is_active ≡ true
      → (xs : List DeviceCertificate) (ds : BTreeMap RosterDevice) → All (Certifies c p) xs
      → Every (DeviceFits c ms e) ds
      → Every (DeviceFits c ms e) (insert_devices xs e ds)
  unfolding insert_devices insert_device
  insert_devices-DeviceFits ms e p m found is_active [] ds certified all = all
  insert_devices-DeviceFits ms e p m found is_active (x ∷ xs) ds certified all =
      insert_devices-DeviceFits ms e p m found is_active xs _ certified.1 (
        Every-insert (DeviceFits c ms e) x.payload.device_id (device_of x e) ds
          (device_of-DeviceFits ms e p m x found is_active certified.0) all)

  pub revoked-DeviceFits :
      (ms : BTreeMap RosterMember) (e : ℕ) (k : String) (d : RosterDevice)
      → DeviceFits c ms e k d
      → DeviceFits c ms (e + 1) k (record d { status = revoked (e + 1) })
  revoked-DeviceFits ms e k d fits = record {
    named = fits.named;
    descriptor = fits.descriptor;
    derived = fits.derived;
    names = fits.names;
    owner = fits.owner;
    owned = fits.owned;
    held = λ h. cc;
    added = omega (arith, fits.added);
    ends = (omega (arith, fits.added), omega arith);
  }
