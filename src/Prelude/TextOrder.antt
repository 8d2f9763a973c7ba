-- ===== src/Prelude/TextOrder.antt =====
-- `<` on texts is the strict part of a total order.
use Prim.Native.String.{String, compare}
use Prim.Native.String.compare
use Prim.Native.Nat.{Ordering}
use mathlib.Core.Path.{◌≡◌}
use mathlib.Core.Bool.{true, false}
use native.Mathlib.Omega.{arith}
use text.Mathlib.TextEquality.{path_by_compare}
use herdr_remote_channel.Prelude.Tests.{str_lt}

not_less_both : (s t : String) → str_lt s t ≡ false → str_lt t s ≡ false → compare s t ≡ Ordering.eq
not_less_both String.[] String.[] h k = compare.nil-nil
not_less_both String.[] (String.◌∷◌ d t) h k = ground (arith, compare.nil-cons d t)
not_less_both (String.◌∷◌ c s) String.[] h k = ground (arith, compare.nil-cons c s)
not_less_both (String.◌∷◌ c s) (String.◌∷◌ d t) h k =
    ground (arith, not_less_both s t, compare.cons-cons c d s t, compare.cons-cons d c t s)

pub str_lt_antisym : (s t : String) → str_lt s t ≡ false → str_lt t s ≡ false → s ≡ t
str_lt_antisym s t h k = path_by_compare s t (not_less_both s t h k)

pub str_lt_trans : (s t u : String) → str_lt t s ≡ false → str_lt u t ≡ false → str_lt u s ≡ false
str_lt_trans String.[] String.[] u h k = k
str_lt_trans (String.◌∷◌ c s) String.[] u h k = ground (arith, compare.nil-cons c s)
str_lt_trans s (String.◌∷◌ d t) String.[] h k = ground (arith, compare.nil-cons d t)
str_lt_trans String.[] (String.◌∷◌ d t) (String.◌∷◌ e u) h k = ground (arith, compare.cons-nil e u)
str_lt_trans (String.◌∷◌ c s) (String.◌∷◌ d t) (String.◌∷◌ e u) h k = ground (
  arith,
  str_lt_trans s t u,
  compare.cons-cons d c t s,
  compare.cons-cons e d u t,
  compare.cons-cons e c u s,
)

pub str_lt_asym : (s t : String) → str_lt s t ≡ true → str_lt t s ≡ false
str_lt_asym String.[] String.[] h = ground (arith, compare.nil-nil)
str_lt_asym String.[] (String.◌∷◌ d t) h = ground (arith, compare.cons-nil d t)
str_lt_asym (String.◌∷◌ c s) String.[] h = ground (arith, compare.cons-nil c s)
str_lt_asym (String.◌∷◌ c s) (String.◌∷◌ d t) h =
    ground (arith, str_lt_asym s t, compare.cons-cons c d s t, compare.cons-cons d c t s)
