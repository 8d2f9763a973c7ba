-- ===== src/Frame/RoundTrip.antt =====
-- crates/hrc-ipc/src/frame.rs: frames that are written and read back, and streams that are read.
use mathlib.Core.Path.{subst}
use herdr_remote_channel.Prelude.{
  ℕ, zero, suc, ◌+◌, ◌*◌, sym, All, ◌/◌, ◌%◌, ◌^◌, ◌<◌, ◌≤◌, String, ◌≡◌, refl, ap, ◌∙◌, false,
  some, List, [], ◌∷◌, ◌++◌, length, ltb, arith, inl, inr, Option-cases, Bool-cases,
}
use herdr_remote_channel.Errors.{Result-cases, Result, ok}
use herdr_remote_channel.Frame.{
  max_frame_bytes, to_be_bytes, from_be_bytes, write_frame, read_exact, read_frame, read_body,
}

read_exact-append :
    (bytes left : List ℕ) → read_exact (length bytes) (bytes ++ left) ≡ some (bytes, left)
unfolding read_exact
read_exact-append [] left = refl
read_exact-append (b ∷ bytes) left = rw (read_exact-append bytes left) refl

from_be_bytes-to_be_bytes :
    (n : ℕ)
    → n < 2 ^ 32
    → (from_be_bytes
          (n % 2 ^ 32 / 2 ^ 24)
          (n % 2 ^ 32 / 2 ^ 16 % 256)
          (n % 2 ^ 32 / 2 ^ 8 % 256)
          (n % 2 ^ 32 % 256)
        ≡ n)
unfolding from_be_bytes
from_be_bytes-to_be_bytes n h = omega (arith, h)

read_body-whole :
    {A : Type 0} (from_slice : List ℕ → Result String A) (body left : List ℕ) (value : A)
    → ltb max_frame_bytes (length body) ≡ false
    → from_slice body ≡ ok value
    → read_body from_slice (length body) (body ++ left) ≡ ok (value, left)
read_body-whole from_slice body left value small parsed =
    rw small (rw (read_exact-append body left) (rw parsed refl))

read_frame-whole :
    {A : Type 0} (from_slice : List ℕ → Result String A) (body left : List ℕ) (value : A)
    → ltb max_frame_bytes (length body) ≡ false
    → from_slice body ≡ ok value
    → read_frame from_slice ((to_be_bytes (length body) ++ body) ++ left) ≡ ok (value, left)
unfolding read_frame read_exact to_be_bytes
read_frame-whole from_slice body left value small parsed =
    ap (λ n. read_body from_slice n (body ++ left))
      (from_be_bytes-to_be_bytes (length body) (ground arith))
    ∙ read_body-whole from_slice body left value small parsed

-- A frame that was written is read back as the value of its body, and nothing after it is consumed.
pub read_frame-write_frame :
    {A : Type 0} (from_slice : List ℕ → Result String A) (body written left : List ℕ) (value : A)
    → write_frame (ok body) ≡ ok written
    → from_slice body ≡ ok value
    → read_frame from_slice (written ++ left) ≡ ok (value, left)
unfolding write_frame
read_frame-write_frame from_slice body written left value wrote parsed =
    elim (Bool-cases (ltb max_frame_bytes (length body))) [
      | inl large ↦ ground arith
      | inr small ↦
          subst (λ w. read_frame from_slice (w ++ left) ≡ ok (value, left))
            {x = to_be_bytes (length body) ++ body} (ground arith)
            (read_frame-whole from_slice body left value small parsed)
    ]

read_exact-split :
    (n : ℕ) (stream : List ℕ) {bytes left : List ℕ}
    → read_exact n stream ≡ some (bytes, left)
    → (stream ≡ bytes ++ left) × (length bytes ≡ n)
unfolding read_exact
read_exact-split zero stream h = ground arith
read_exact-split (suc n) [] h = cc
read_exact-split (suc n) (b ∷ stream) h = elim (Option-cases (read_exact n stream)) [
  | inl short ↦ ground arith
  | inr ((bytes', left'), found) ↦ ground (arith, read_exact-split n stream found)
]

to_be_bytes-from_be_bytes :
    (a b c d : ℕ)
    → a < 256
    → b < 256
    → c < 256
    → d < 256
    → to_be_bytes (from_be_bytes a b c d) ≡ a ∷ b ∷ c ∷ d ∷ []
unfolding to_be_bytes from_be_bytes
to_be_bytes-from_be_bytes a b c d ha hb hc hd =
    let n : ℕ = (a * 2 ^ 24 + (b * 2 ^ 16 + (c * 2 ^ 8 + d))) % 2 ^ 32 in
    let first : n / 2 ^ 24 ≡ a = omega (arith, ha, hb, hc, hd) in
    let second : n / 2 ^ 16 % 256 ≡ b = omega (arith, ha, hb, hc, hd) in
    let third : n / 2 ^ 8 % 256 ≡ c = omega (arith, ha, hb, hc, hd) in
    let fourth : n % 256 ≡ d = omega (arith, ha, hb, hc, hd) in
    rw (first, second, third, fourth) refl

-- A frame in a stream: the bytes that writing a body would give, and then the rest.
pub record Framed {A : Type 0} (from_slice : List ℕ → Result String A) (stream : List ℕ) (value : A)
    (left : List ℕ) : Type 0 where
  pub body : List ℕ
  pub written : List ℕ
  pub wrote : write_frame (ok body) ≡ ok written
  pub layout : stream ≡ written ++ left
  pub bounded : length body ≤ 1048576
  pub parsed : from_slice body ≡ ok value

read_body-split :
    {A : Type 0} (from_slice : List ℕ → Result String A) (n : ℕ) (rest : List ℕ) {value : A}
    {left : List ℕ}
    → read_body from_slice n rest ≡ ok (value, left)
    → (body : List ℕ) × (rest ≡ body ++ left)
      × (length body ≡ n)
      × (n ≤ 1048576)
      × (from_slice body ≡ ok value)
read_body-split from_slice n rest h = elim (Option-cases (read_exact n rest)) [
  | inl short ↦ ground arith
  | inr ((body, left'), found) ↦ elim (Result-cases (from_slice body)) [
    | inl (v, parsed) ↦
        let (layout, size) = read_exact-split n rest found in
        (body, ground arith, ground arith, ground arith, ground arith)
    | inr (e, refused) ↦ ground arith
  ]
]

write_frame-small :
    (body : List ℕ)
    → length body ≤ 1048576
    → write_frame (ok body) ≡ ok (to_be_bytes (length body) ++ body)
unfolding write_frame
write_frame-small body small = ground arith

-- A frame is read only from a stream of bytes that starts with one: with exactly what `write_frame`
-- writes for a body of at most 1 MiB, which parses to the value. The rest of the stream is left.
pub read_frame-Framed :
    {A : Type 0} (from_slice : List ℕ → Result String A) (stream : List ℕ) (value : A)
    (left : List ℕ)
    → All (λ b. b < 256) stream
    → read_frame from_slice stream ≡ ok (value, left)
    → Framed from_slice stream value left
unfolding read_frame read_exact
read_frame-Framed from_slice (a ∷ b ∷ c ∷ d ∷ rest) value left (ha, (hb, (hc, (hd, others)))) h =
    let (body, layout, size, bounded, parsed) =
      read_body-split from_slice (from_be_bytes a b c d) rest h in
    let header : to_be_bytes (length body) ≡ a ∷ b ∷ c ∷ d ∷ [] =
      ap to_be_bytes size ∙ to_be_bytes-from_be_bytes a b c d ha hb hc hd in
    record {
      body = body;
      written = to_be_bytes (length body) ++ body;
      wrote = write_frame-small body (omega (arith, size, bounded));
      layout =
          ap (λ r. a ∷ b ∷ c ∷ d ∷ r) layout
          ∙ ap (λ bytes. (bytes ++ body) ++ left) {x = a ∷ b ∷ c ∷ d ∷ []} (sym header);
      bounded = omega (arith, size, bounded);
      parsed = parsed;
    }
read_frame-Framed from_slice [] value left bytes h = ground arith
read_frame-Framed from_slice (a ∷ []) value left bytes h = ground arith
read_frame-Framed from_slice (a ∷ b ∷ []) value left bytes h = ground arith
read_frame-Framed from_slice (a ∷ b ∷ c ∷ []) value left bytes h = ground arith
