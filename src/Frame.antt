-- ===== src/Frame.antt =====
-- crates/hrc-ipc/src/frame.rs: length-prefixed frames on a local connection.
pub mod RoundTrip
mod Examples
use Prim.Native.String.{◌++◌ as join}
use herdr_remote_channel.Prelude.{
  ℕ, zero, suc, ◌+◌, ◌-◌, ◌*◌, ◌/◌, ◌%◌, ◌^◌, ◌≤◌, ◌<◌, String, ◌≡◌, refl, ap, ◌∙◌, Bool, true,
  false, not, Option, none, some, List, [], ◌∷◌, ◌++◌, length, take, drop, ltb, leb, arith, inl,
  inr, if◌then◌else◌, length-append, All,
}
use herdr_remote_channel.Prelude.Decimal.{decimal}
use herdr_remote_channel.Errors.{Result, ok, err, reject_if, map_err, ◌>>=◌, ◌>>◌}

pub data IpcError : Type 0 where
  frame_too_large : (declared limit : ℕ) → IpcError
  malformed : String → IpcError
  disconnected : IpcError

abbrev pub max_frame_bytes : ℕ
max_frame_bytes = 1024 * 1024

-- `(n as u32).to_be_bytes()`.
unfoldable pub to_be_bytes : ℕ → List ℕ
to_be_bytes n = let m = n % 2 ^ 32 in m / 2 ^ 24 ∷ m / 2 ^ 16 % 256 ∷ m / 2 ^ 8 % 256 ∷ m % 256 ∷ []

unfoldable pub from_be_bytes : ℕ → ℕ → ℕ → ℕ → ℕ
from_be_bytes a b c d = a * 2 ^ 24 + (b * 2 ^ 16 + (c * 2 ^ 8 + d))

-- `body` is what `serde_json::to_vec` made of the value; the result is what is written.
unfoldable pub write_frame : Result String (List ℕ) → Result IpcError (List ℕ)
unfolding to_be_bytes
write_frame serialized = do
  body ← map_err malformed serialized
  reject_if (ltb max_frame_bytes (length body)) (frame_too_large (length body) max_frame_bytes)
  ok (to_be_bytes (length body) ++ body)

-- `read_exact` of a number of bytes from what the peer sends before it closes: the bytes, and the
-- rest of the stream.
unfoldable pub read_exact : ℕ → List ℕ → Option (List ℕ × List ℕ)
read_exact zero stream = some ([], stream)
read_exact (suc n) [] = none
read_exact (suc n) (b ∷ stream) =
    let rest = read_exact n stream in
    elim rest [ none ↦ none | some (bytes, left) ↦ some (b ∷ bytes, left) ]

module _ {A : Type 0} (from_slice : List ℕ → Result String A) where
  abbrev pub decode : List ℕ × List ℕ → Result IpcError (A × List ℕ)
  decode (body, left) = do value ← map_err malformed (from_slice body); ok (value, left)

  abbrev pub read_body : ℕ → List ℕ → Result IpcError (A × List ℕ)
  read_body declared stream =
      if ltb max_frame_bytes declared
      then err (frame_too_large declared max_frame_bytes)
      else elim (read_exact declared stream) [
        | none ↦ err (
            malformed (join "frame declared " (join (decimal 1 declared) " bytes and ended early")))
        | some parts ↦ decode parts
      ]

  abbrev pub read_header : Option (List ℕ × List ℕ) → Result IpcError (A × List ℕ)
  read_header (some (a ∷ b ∷ c ∷ d ∷ [], stream)) = read_body (from_be_bytes a b c d) stream
  read_header _ = err disconnected

  -- The value of the next frame, and the rest of the stream.
  unfoldable pub read_frame : List ℕ → Result IpcError (A × List ℕ)
  unfolding read_exact from_be_bytes
  read_frame stream = read_header (read_exact 4 stream)
