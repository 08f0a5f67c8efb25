-- ===== src/Prelude/Assoc.antt =====
-- Rust's `HashMap` with a byte string for a key: an association list that holds a key once. The
-- program reads the order of a map's entries only to print them.
use mathlib.Core.Path.{◌≡◌, refl}
use mathlib.Core.Bool.{Bool}
use mathlib.Core.Option.{Option, none, some}
use mathlib.Core.List.{List, [], ◌∷◌}
use native.Mathlib.Omega.{arith}
use yuv_lightning_ldk_sample.Prelude.Tests.{if◌then◌else◌, is_some}
use yuv_lightning_ldk_sample.Prelude.Text.{Bytes, equal, equal_iff}

abbrev pub Assoc {ℓ} : Type ℓ → Type ℓ
Assoc V = List (Bytes × V)

module _ {ℓ} {V : Type ℓ} where
  -- `map.get(&k)`
  unfoldable pub get : Bytes → Assoc V → Option V
  get k [] = none
  get k ((j, v) ∷ m) = if equal j k then some v else get k m

  -- `map.insert(k, v)`
  unfoldable pub insert : Bytes → V → Assoc V → Assoc V
  insert k v [] = (k, v) ∷ []
  insert k v ((j, w) ∷ m) = if equal j k then (k, v) ∷ m else (j, w) ∷ insert k v m

  -- `if let Some(e) = map.get_mut(&k) { *e = f(*e) }`
  unfoldable pub modify : Bytes → (V → V) → Assoc V → Assoc V
  modify k f [] = []
  modify k f ((j, w) ∷ m) = if equal j k then (j, f w) ∷ m else (j, w) ∷ modify k f m

  abbrev pub contains_key : Bytes → Assoc V → Bool
  contains_key k m = is_some (get k m)

  pub get-insert :
      (k j : Bytes) (v : V) (m : Assoc V)
      → get j (insert k v m) ≡ (if equal k j then some v else get j m)
  unfolding get insert
  get-insert k j v [] = refl
  get-insert k j v ((i, w) ∷ m) =
      ground (arith, equal_iff k j, equal_iff i k, equal_iff i j, get-insert k j v m)

  abbrev pub map_some : (V → V) → Option V → Option V
  map_some f none = none
  map_some f (some v) = some (f v)

  pub get-modify :
      (k j : Bytes) (f : V → V) (m : Assoc V)
      → get j (modify k f m) ≡ (if equal k j then map_some f (get j m) else get j m)
  unfolding get modify
  get-modify k j f [] = ground arith
  get-modify k j f ((i, w) ∷ m) =
      ground (arith, equal_iff k j, equal_iff i k, equal_iff i j, get-modify k j f m)

  -- every value changed by a function of its key and itself: `for (k, v) in map.iter_mut()`
  unfoldable pub map_values : (Bytes → V → V) → Assoc V → Assoc V
  map_values f [] = []
  map_values f ((j, w) ∷ m) = (j, f j w) ∷ map_values f m

  pub get-map_values :
      (k : Bytes) (f : Bytes → V → V) (m : Assoc V)
      → get k (map_values f m) ≡ map_some (f k) (get k m)
  unfolding get map_values
  get-map_values k f [] = refl
  get-map_values k f ((i, w) ∷ m) = ground (arith, equal_iff i k, get-map_values k f m)

pub ruleset assoc_laws = (get-insert, get-modify, get-map_values)
