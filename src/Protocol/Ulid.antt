-- ===== src/Protocol/Ulid.antt =====
-- `is_ulid` of crates/hrc-protocol/src/ulid.rs.
use Prim.Native.String.{len}
use herdr_remote_channel.Prelude.{
  ℕ, ◌-◌, String, Bool, true, false, ◌&&◌, ◌||◌, List, [], ◌∷◌, leb, ◌==◌, if◌then◌else◌,
}
use herdr_remote_channel.Protocol.Canonical.{bytes_of}

abbrev alphabet : List ℕ
alphabet = bytes_of "0123456789ABCDEFGHJKMNPQRSTVWXYZ"

abbrev member : ℕ → List ℕ → Bool
member b [] = false
member b (x ∷ xs) = x == b || member b xs

abbrev to_ascii_uppercase : ℕ → ℕ
to_ascii_uppercase b = if leb b'a' b && leb b b'z' then b - 32 else b

abbrev all_in_alphabet : List ℕ → Bool
all_in_alphabet [] = true
all_in_alphabet (b ∷ bs) = member (to_ascii_uppercase b) alphabet && all_in_alphabet bs

abbrev pub ulid_length : ℕ
ulid_length = 26

unfoldable pub is_ulid : String → Bool
is_ulid value = len value == ulid_length && all_in_alphabet (bytes_of value)
