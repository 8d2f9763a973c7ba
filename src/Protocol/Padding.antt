-- ===== src/Protocol/Padding.antt =====
-- `padding_for` of crates/hrc-protocol/src/message.rs.
use herdr_remote_channel.Prelude.{ℕ, zero, suc, ◌-◌, ◌*◌, String, List, [], ◌∷◌, find, leb}
use herdr_remote_channel.Errors.{ProtocolError, message_too_large, Result, ok, ok_or, ◌>>=◌}

abbrev pub max_plaintext_bytes : ℕ
max_plaintext_bytes = 1024 * 1024

abbrev pub padding_buckets : List ℕ
padding_buckets = 1024 ∷ 4096 ∷ 16384 ∷ 65536 ∷ 262144 ∷ max_plaintext_bytes ∷ []

-- `"0".repeat(n)`.
unfoldable pub zeros : ℕ → String
zeros zero = ""
zeros (suc n) = String.◌∷◌ "0" (zeros n)

unfoldable pub padding_for : ℕ → Result ProtocolError String
unfolding zeros
padding_for serialized_len = do
  target ←
      ok_or (find (λ bucket. leb serialized_len bucket) padding_buckets)
        (message_too_large serialized_len max_plaintext_bytes)
  ok (zeros (target - serialized_len))
