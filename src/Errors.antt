-- ===== src/Errors.antt =====
-- The error types of crates/hrc-protocol/src/error.rs, crates/hrc-crypto/src/lib.rs and
-- crates/hrc-core/src/error.rs, as far as the modelled code returns them, with `Result` and `?`.
use herdr_remote_channel.Prelude.{
  ℕ, String, ◌≡◌, refl, ◌⊎◌, inl, inr, Bool, true, false, Option, none, some,
}

pub data ProtocolError : Type 0 where
  canonicalization : ProtocolError
  hex : String → ℕ → ProtocolError
  unsupported_version : ℕ → ℕ → ProtocolError
  invalid_endpoint : String → ProtocolError
  message_too_large : ℕ → ℕ → ProtocolError
  invalid_control_sequence : ℕ → ProtocolError
  empty_recipient_set : ProtocolError
  missing_field : String → ProtocolError
  derived_mismatch : String → ProtocolError

pub data CryptoError : Type 0 where
  public_key : String → CryptoError
  signature_format : String → CryptoError
  signature_invalid : String → CryptoError
  protocol_in_crypto : ProtocolError → CryptoError

-- `invalid_ids` is `StorageError::Protocol`.
pub data StorageError : Type 0 where
  unknown_channel unknown_message inbound_substituted : String → StorageError
  inbound_forked : String → ℕ → String → String → StorageError
  sqlite : String → StorageError
  invalid_ids : ProtocolError → StorageError

pub data CoreError : Type 0 where
  wrong_channel : String → String → CoreError
  sequence_out_of_order : ℕ → ℕ → CoreError
  broken_chain : String → String → CoreError
  epoch_out_of_order : ℕ → ℕ → CoreError
  unauthorized_signer revoked_signer unknown_device unknown_member : String → CoreError
  duplicate_member duplicate_device already_revoked : String → CoreError
  cannot_remove_administrator : CoreError
  certificate_principal_mismatch : String → String → CoreError
  unknown_invite duplicate_invite invite_already_used invite_revoked : String → CoreError
  receipt_for_unknown_message : String → CoreError
  receipt_from_non_recipient : String → String → CoreError
  not_an_answer uncorrelated_answer : String → CoreError
  not_a_delegation_party : String → String → CoreError
  illegal_delegation_transition wrong_delegation_party : String → String → String → CoreError
  no_recipients recipient_set_mismatch local_device_not_in_roster : CoreError
  unknown_channel_state synchronization_halted transport : String → CoreError
  authorization_mismatch authorization_already_used : CoreError
  authorization_expired decision_does_not_deliver : String → CoreError
  edited_content_mismatch : CoreError
  authorization_required no_approved_content no_pending_message : String → CoreError
  publication_refused alias_refused : String → CoreError
  protocol : ProtocolError → CoreError
  crypto : CryptoError → CoreError
  storage : StorageError → CoreError

pub data Result {ℓ κ} (E : Type ℓ) (A : Type κ) : Type (ℓ ⊔ κ) where
  ok : A → Result E A
  err : E → Result E A

module _ {ℓ} {E : Type ℓ} where
  infixl 5 ◌>>=◌ ◌>>◌
  abbrev pub ◌>>=◌ {κ η} : {A : Type κ} {B : Type η} → Result E A → (A → Result E B) → Result E B
  ok a >>= f = f a
  err e >>= f = err e

  abbrev pub ◌>>◌ {κ} : {B : Type κ} → Result E (Unit {0}) → Result E B → Result E B
  m >> k = m >>= λ _. k

  -- `if refused { return Err(e); }`.
  abbrev pub reject_if : Bool → E → Result E (Unit {0})
  reject_if true e = err e
  reject_if false e = ok tt

  -- `ok_or_else(|| e)?`.
  abbrev pub ok_or {κ} : {A : Type κ} → Option A → E → Result E A
  ok_or none e = err e
  ok_or (some a) e = ok a

-- The conversion that `?` makes by `From`.
abbrev pub map_err {ℓ κ η} :
    {E : Type ℓ} {F : Type κ} {A : Type η} → (E → F) → Result E A → Result F A
map_err f (ok a) = ok a
map_err f (err e) = err (f e)

abbrev pub is_ok {ℓ κ} : {E : Type ℓ} {A : Type κ} → Result E A → Bool
is_ok (ok a) = true
is_ok (err e) = false

-- A `?` in a method that mutates `s`: what was written before an error stays written.
abbrev pub try_then {ℓ κ η θ} :
    {S : Type ℓ} {E : Type κ} {A : Type η} {B : Type θ}
    → Result E A
    → S
    → (A → Result E B × S)
    → Result E B × S
try_then (ok a) s k = k a
try_then (err e) s k = (err e, s)

pub Result-cases {ℓ κ} :
    {E : Type ℓ} {A : Type κ} (r : Result E A) → ((a : A) × (r ≡ ok a)) ⊎ ((e : E) × (r ≡ err e))
Result-cases (ok a) = inl (a, refl)
Result-cases (err e) = inr (e, refl)

-- A block that succeeds had a first part that did.
pub bind_succeeds {ℓ κ η} :
    {E : Type ℓ} {A : Type κ} {B : Type η} (m : Result E A) (f : A → Result E B) (b : B)
    → (m >>= f) ≡ ok b
    → (a : A) × (m ≡ ok a) × (f a ≡ ok b)
bind_succeeds (ok a) f b h = (a, refl, h)
bind_succeeds (err e) f b h = cc

pub map_err_ok {ℓ κ η} :
    {E : Type ℓ} {F : Type κ} {A : Type η} (f : E → F) (r : Result E A) (a : A)
    → map_err f r ≡ ok a
    → r ≡ ok a
map_err_ok f (ok b) a h = cc
map_err_ok f (err e) a h = cc

-- A result has one value.
pub ok_same {ℓ κ} :
    {E : Type ℓ} {A : Type κ} (r : Result E A) (b a : A) → r ≡ ok b → r ≡ ok a → b ≡ a
ok_same r b a e f = cc

-- Rules for the state after a `?`: on success, and on every outcome.
module _ {ℓ κ η θ ι} {S : Type ℓ} {E : Type κ} {A : Type η} {B : Type θ} (P : S → Type ι) where
  pub try_then_ok :
      (m : Result E A) (s : S) (k : A → Result E B × S) (b : B)
      → ((a : A) → m ≡ ok a → (k a).0 ≡ ok b → P (k a).1)
      → (try_then m s k).0 ≡ ok b
      → P (try_then m s k).1
  try_then_ok (ok a) s k b rest h = rest a refl h
  try_then_ok (err e) s k b rest h = cc

  pub try_then_any :
      (m : Result E A) (s : S) (k : A → Result E B × S)
      → P s
      → ((a : A) → m ≡ ok a → P (k a).1)
      → P (try_then m s k).1
  try_then_any (ok a) s k stop rest = rest a refl
  try_then_any (err e) s k stop rest = stop
