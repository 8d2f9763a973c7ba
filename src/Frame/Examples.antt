-- ===== src/Frame/Examples.antt =====
-- Tests of frames on a body of two bytes, and their theorems there.
use herdr_remote_channel.Prelude.{ℕ, String, ◌≡◌, refl, List, [], ◌∷◌, arith}
use herdr_remote_channel.Errors.{Result, ok, err}
use herdr_remote_channel.Frame.{
  to_be_bytes, from_be_bytes, read_exact, write_frame, read_frame, frame_too_large, disconnected,
}
use herdr_remote_channel.Frame.RoundTrip.{read_frame-write_frame, Framed, read_frame-Framed}

-- A parser that keeps the bytes.
abbrev bytes_as_they_are : List ℕ → Result String (List ℕ)
bytes_as_they_are bytes = ok bytes

abbrev frame : List ℕ
frame = 0 ∷ 0 ∷ 0 ∷ 2 ∷ 7 ∷ 8 ∷ []

abbrev stream : List ℕ
stream = 0 ∷ 0 ∷ 0 ∷ 2 ∷ 7 ∷ 8 ∷ 9 ∷ []

read_frame-write_frame_example : read_frame bytes_as_they_are stream ≡ ok (7 ∷ 8 ∷ [], 9 ∷ [])
read_frame-write_frame_example =
    read_frame-write_frame bytes_as_they_are (7 ∷ 8 ∷ []) frame (9 ∷ []) (7 ∷ 8 ∷ [])
      (unfold write_frame to_be_bytes in refl) refl

read_frame-Framed_example : Framed bytes_as_they_are stream (7 ∷ 8 ∷ []) (9 ∷ [])
read_frame-Framed_example =
    read_frame-Framed bytes_as_they_are stream (7 ∷ 8 ∷ []) (9 ∷ [])
      (
        omega arith,
        (
          omega arith,
          (omega arith, (omega arith, (omega arith, (omega arith, (omega arith, tt))))),
        ),
      )
      (unfold read_frame read_exact from_be_bytes in refl)

-- Streams that end early, or announce a body over the bound.
refusals :
    (read_frame bytes_as_they_are (0 ∷ 0 ∷ []) ≡ err disconnected)
    × (read_frame bytes_as_they_are (0 ∷ 16 ∷ 0 ∷ 1 ∷ 5 ∷ [])
        ≡ err (frame_too_large 1048577 1048576))
unfolding read_frame read_exact from_be_bytes
refusals = (refl, refl)
