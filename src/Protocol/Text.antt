-- ===== src/Protocol/Text.antt =====
-- `bounded` of crates/hrc-protocol/src/delegation.rs, with `str::trim` as far as it is used.
use Prim.Native.String.{len}
use herdr_remote_channel.Prelude.{
  ℕ, ◌*◌, String, Bool, true, ◌&&◌, ◌||◌, List, [], ◌∷◌, leb, ltb, ◌==◌,
}
use herdr_remote_channel.Errors.{
  ProtocolError, missing_field, message_too_large, Result, reject_if, ◌>>◌,
}
use herdr_remote_channel.Protocol.Canonical.{bytes_of}

abbrev pub max_text_bytes : ℕ
max_text_bytes = 16 * 1024

-- `char::is_whitespace`: the code points with the Unicode property White_Space.
unfoldable pub is_whitespace : ℕ → Bool
is_whitespace c =
    (leb 0x09 c && leb c 0x0d)
    || c == 0x20
    || c == 0x85
    || c == 0xa0
    || c == 0x1680
    || (leb 0x2000 c && leb c 0x200a)
    || c == 0x2028
    || c == 0x2029
    || c == 0x202f
    || c == 0x205f
    || c == 0x3000

-- `trim().is_empty()`.
unfoldable pub is_blank : List ℕ → Bool
unfolding is_whitespace
is_blank [] = true
is_blank (c ∷ cs) = is_whitespace c && is_blank cs

unfoldable pub bounded : String → String → Bool → Result ProtocolError (Unit {0})
unfolding is_blank
bounded field value required = do
  reject_if (required && is_blank (bytes_of value)) (missing_field field)
  reject_if (ltb max_text_bytes (len value)) (message_too_large (len value) max_text_bytes)
