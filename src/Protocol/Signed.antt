-- ===== src/Protocol/Signed.antt =====
-- crates/hrc-protocol/src/signed.rs: the signed envelope and its domain-separated input.
use herdr_remote_channel.Prelude.{ℕ, ◌<◌, String, ◌≡◌, List, [], ◌∷◌, ◌++◌, All, arith}
use herdr_remote_channel.Errors.{ProtocolError, Result, ok, ◌>>=◌}
use herdr_remote_channel.Protocol.Canonical.{bytes_of}

pub record Signer : Type 0 where
  pub principal_id : String
  pub device_id : String

pub record SignedObject (P : Type 0) : Type 0 where
  pub version : ℕ
  pub signer : Signer
  pub payload : P
  pub signature : String

-- `canonical` is what `to_canonical_bytes(payload)` returns.
unfoldable pub signature_input :
    String → Result ProtocolError (List ℕ) → Result ProtocolError (List ℕ)
signature_input domain canonical = do bytes ← canonical; ok (bytes_of domain ++ 0 ∷ bytes)

-- No NUL byte, as in every domain string of the protocol.
abbrev pub HasNoNul : String → Type 0
HasNoNul domain = All (λ b. 0 < b) (bytes_of domain)

split_at_nul :
    (d e : List ℕ) (m n : List ℕ)
    → All (λ b. 0 < b) d
    → All (λ b. 0 < b) e
    → d ++ 0 ∷ m ≡ e ++ 0 ∷ n
    → (d ≡ e) × (m ≡ n)
split_at_nul [] [] m n hd he p = ground arith
split_at_nul [] (b ∷ e) m n hd he p = ground arith
split_at_nul (a ∷ d) [] m n hd he p = ground arith
split_at_nul (a ∷ d) (b ∷ e) m n hd he p = ground (arith, split_at_nul d e m n hd.1 he.1)

-- Two signature inputs are the same bytes only if both the domains and the canonical payloads are,
-- for domains without a NUL byte.
pub signature_input_separates :
    (d e : String) (m n : List ℕ)
    → HasNoNul d
    → HasNoNul e
    → signature_input d (ok m) ≡ signature_input e (ok n)
    → (bytes_of d ≡ bytes_of e) × (m ≡ n)
unfolding signature_input
signature_input_separates d e m n hd he p =
    split_at_nul (bytes_of d) (bytes_of e) m n hd he (ground arith)
