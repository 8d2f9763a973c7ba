-- ===== src/Prelude/BTreeMap.antt =====
-- `std::collections::BTreeMap` with text keys: an association list in the order of the keys.
use Prim.Native.Nat.{Ordering}
use Prim.Native.String.{String, compare}
use mathlib.Core.Path.{◌≡◌, refl, subst, subst₂}
use mathlib.Core.Bool.{Bool, true, false}
use mathlib.Core.Logic.{inl, inr}
use mathlib.Core.Option.{Option, none, some}
use mathlib.Core.List.{List, [], ◌∷◌}
use native.Mathlib.Omega.{arith}
use text.Mathlib.Text.{◌==◌}
use text.Mathlib.TextEquality.{eq_iff}
use herdr_remote_channel.Prelude.Tests.{if◌then◌else◌, Bool-cases}

abbrev pub BTreeMap {ℓ} : Type ℓ → Type ℓ
BTreeMap V = List (String × V)

module _ {ℓ} {V : Type ℓ} where
  -- `get`, and `get_mut` before its write.
  unfoldable pub get : String → BTreeMap V → Option V
  get k [] = none
  get k ((j, v) ∷ m) = if j == k then some v else get k m

  unfoldable pub contains_key : String → BTreeMap V → Bool
  contains_key k [] = false
  contains_key k ((j, v) ∷ m) = if j == k then true else contains_key k m

  unfoldable pub insert : String → V → BTreeMap V → BTreeMap V
  insert k v [] = (k, v) ∷ []
  insert k v ((j, w) ∷ m) =
      let rest = insert k v m in
      elim (compare j k) [
        | Ordering.lt ↦ (j, w) ∷ rest
        | Ordering.eq ↦ (k, v) ∷ m
        | Ordering.gt ↦ (k, v) ∷ (j, w) ∷ m
      ]

  unfoldable pub remove : String → BTreeMap V → BTreeMap V
  remove k [] = []
  remove k ((j, v) ∷ m) = let rest = remove k m in if j == k then rest else (j, v) ∷ rest

  pub get-remove : (k : String) (m : BTreeMap V) → get k (remove k m) ≡ none
  unfolding get remove
  get-remove k [] = refl
  get-remove k ((j, v) ∷ m) = ground (arith, get-remove k m)

  -- `for v in values_mut() { *v = f(*v) }`.
  unfoldable pub map_values : (V → V) → BTreeMap V → BTreeMap V
  map_values f [] = []
  map_values f ((j, v) ∷ m) = (j, f v) ∷ map_values f m

  unfoldable pub values : BTreeMap V → List V
  values [] = []
  values ((j, v) ∷ m) = v ∷ values m

  abbrev pub map_option : (V → V) → Option V → Option V
  map_option f none = none
  map_option f (some v) = some (f v)

  pub get-insert :
      (k j : String) (v : V) (m : BTreeMap V)
      → get j (insert k v m) ≡ (if k == j then some v else get j m)
  unfolding get insert
  get-insert k j v [] = refl
  get-insert k j v ((i, w) ∷ m) =
      ground (arith, eq_iff k j, eq_iff i k, eq_iff i j, get-insert k j v m)

  pub get-map_values :
      (f : V → V) (k : String) (m : BTreeMap V) → get k (map_values f m) ≡ map_option f (get k m)
  unfolding get map_values
  get-map_values f k [] = refl
  get-map_values f k ((i, w) ∷ m) = ground (arith, get-map_values f k m)

  pub contains_key-get :
      (k : String) (m : BTreeMap V)
      → contains_key k m ≡ elim (get k m) [ none ↦ false | some v ↦ true ]
  unfolding get contains_key
  contains_key-get k [] = refl
  contains_key-get k ((i, w) ∷ m) = ground (arith, contains_key-get k m)

module _ {ℓ κ} {V : Type ℓ} where
  -- Every entry that a lookup can find has the property.
  abbrev pub Every : (String → V → Type κ) → BTreeMap V → Type (ℓ ⊔ κ)
  Every P m = (j : String) (w : V) → get j m ≡ some w → P j w

  pub Every-insert :
      (P : String → V → Type κ) (k : String) (v : V) (m : BTreeMap V)
      → P k v
      → Every P m
      → Every P (insert k v m)
  Every-insert P k v m pv all j w found = elim (Bool-cases (k == j)) [
    | inl same ↦ subst₂ P ((eq_iff k j).0 same) (ground (arith, get-insert k j v m)) pv
    | inr other ↦ all j w (ground (arith, get-insert k j v m))
  ]

  pub Every-map_values :
      (P Q : String → V → Type κ) (f : V → V) (m : BTreeMap V)
      → ((j : String) (w : V) → P j w → Q j (f w))
      → Every P m
      → Every Q (map_values f m)
  Every-map_values P Q f m step all j w found = go (get j m) refl
    where
      go : (o : Option V) → get j m ≡ o → Q j w
      go none e = cc (get-map_values f j m)
      go (some v) e = subst (Q j) (ground (arith, get-map_values f j m)) (step j v (all j v e))
