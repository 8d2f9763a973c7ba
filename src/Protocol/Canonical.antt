-- ===== src/Protocol/Canonical.antt =====
-- crates/hrc-protocol/src/canonical.rs. The encoders of `serde_jcs`, `sha2` and `base64` are
-- parameters; the checks made on top of them are here.
use Prim.Native.Char.{code}
use Prim.Native.String.{len}
use herdr_remote_channel.Prelude.{
  ℕ, ◌*◌, String, Bool, true, ◌&&◌, ◌||◌, List, [], ◌∷◌, leb, ◌==◌, if◌then◌else◌,
}
use herdr_remote_channel.Errors.{ProtocolError, hex, Result, ok, err}

-- The bytes of an ASCII text.
abbrev pub bytes_of : String → List ℕ
bytes_of String.[] = []
bytes_of (String.◌∷◌ c s) = code c ∷ bytes_of s

unfoldable pub is_lower_hex : ℕ → Bool
is_lower_hex b = (leb b'0' b && leb b b'9') || (leb b'a' b && leb b b'f')

unfoldable pub all_lower_hex : List ℕ → Bool
unfolding is_lower_hex
all_lower_hex [] = true
all_lower_hex (b ∷ bs) = is_lower_hex b && all_lower_hex bs

unfoldable pub expect_hex_digest : String → String → ℕ → Result ProtocolError (Unit {0})
unfolding all_lower_hex
expect_hex_digest field value expected_bytes =
    if len value == expected_bytes * 2 && all_lower_hex (bytes_of value)
    then ok tt
    else err (hex field expected_bytes)
