-- ===== src/Inbound/Counts.antt =====
-- Lemmas on the queries of inbound ordering: how many rows a write leaves, and what a row that is
-- read satisfies.
use herdr_remote_channel.Prelude.{
  ℕ, suc, ◌≤◌, ◌<◌, ◌≡◌, Bool, true, false, not, ◌&&◌, some, List, [], ◌∷◌, length, find, map,
  arith, if◌then◌else◌,
}
use herdr_remote_channel.Inbound.Queries.{any, filter}

module _ {ℓ} {A : Type ℓ} where
  -- How many rows satisfy a test.
  abbrev pub count : (A → Bool) → List A → ℕ
  count test [] = 0
  count test (x ∷ xs) = if test x then suc (count test xs) else count test xs

  -- A row that is found satisfies the test.
  pub find_sound : (test : A → Bool) (xs : List A) (x : A) → find test xs ≡ some x → test x ≡ true
  find_sound test [] x h = cc
  find_sound test (y ∷ xs) x h = ground (arith, find_sound test xs x)

  pub find-any :
      (test : A → Bool) (xs : List A) (x : A) → find test xs ≡ some x → any test xs ≡ true
  find-any test [] x h = cc
  find-any test (y ∷ xs) x h = ground (arith, find-any test xs x)

  -- A row that is found is in the table.
  pub found_hit :
      (test hit : A → Bool) (xs : List A) (x : A)
      → find test xs ≡ some x
      → hit x ≡ true
      → any hit xs ≡ true
  found_hit test hit [] x h at = cc
  found_hit test hit (y ∷ xs) x h at = ground (arith, found_hit test hit xs x)

  pub length-filter : (test : A → Bool) (xs : List A) → length (filter test xs) ≤ length xs
  length-filter test [] = omega arith
  length-filter test (x ∷ xs) = ground (arith, length-filter test xs)

  -- Deleting the rows that satisfy a test shrinks a table that has one.
  pub filter_shrinks :
      (test : A → Bool) (xs : List A)
      → any test xs ≡ true
      → length (filter (λ x. not (test x)) xs) < length xs
  filter_shrinks test [] h = cc
  filter_shrinks test (x ∷ xs) h =
      ground (arith, length-filter (λ x. not (test x)) xs, filter_shrinks test xs)

  pub count-length : (test : A → Bool) (xs : List A) → count test xs ≤ length xs
  count-length test [] = omega arith
  count-length test (x ∷ xs) = ground (arith, count-length test xs)

  -- A write that makes no row satisfy the test, and stops one that did, lowers the count.
  pub count-map :
      (test : A → Bool) (f : A → A)
      → ((x : A) → test x ≡ false → test (f x) ≡ false)
      → (xs : List A) → count test (map f xs) ≤ count test xs
  count-map test f keep [] = omega arith
  count-map test f keep (x ∷ xs) = ground (arith, keep x, count-map test f keep xs)

  pub count_drops :
      (test hit : A → Bool) (f : A → A)
      → ((x : A) → test x ≡ false → test (f x) ≡ false)
      → ((x : A) → hit x ≡ true → test x ≡ true)
      → ((x : A) → hit x ≡ true → test (f x) ≡ false)
      → (xs : List A) → any hit xs ≡ true
      → count test (map f xs) < count test xs
  count_drops test hit f keep live stop [] h = cc
  count_drops test hit f keep live stop (x ∷ xs) h = ground (
    arith,
    keep x,
    live x,
    stop x,
    count-map test f keep xs,
    count_drops test hit f keep live stop xs,
  )

  -- A stronger test that refuses a row which the weaker one passes counts fewer.
  pub count_weaker :
      (p q : A → Bool)
      → ((x : A) → q x ≡ true → p x ≡ true)
      → (xs : List A) → count q xs ≤ count p xs
  count_weaker p q weaker [] = omega arith
  count_weaker p q weaker (x ∷ xs) = ground (arith, weaker x, count_weaker p q weaker xs)

  pub count_strict :
      (p q hit : A → Bool)
      → ((x : A) → q x ≡ true → p x ≡ true)
      → ((x : A) → hit x ≡ true → p x ≡ true)
      → ((x : A) → hit x ≡ true → q x ≡ false)
      → (xs : List A) → any hit xs ≡ true
      → count q xs < count p xs
  count_strict p q hit weaker passes refused [] h = cc
  count_strict p q hit weaker passes refused (x ∷ xs) h = ground (
    arith,
    weaker x,
    passes x,
    refused x,
    count_weaker p q weaker xs,
    count_strict p q hit weaker passes refused xs,
  )

pub and_left : (x y : Bool) → (x && y) ≡ true → x ≡ true
and_left x y h = ground arith

pub and_right : (x y : Bool) → (x && y) ≡ true → y ≡ true
and_right x y h = ground arith
