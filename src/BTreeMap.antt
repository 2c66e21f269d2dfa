-- ===== src/BTreeMap.antt =====
-- `std::collections::BTreeMap` with byte-string keys, as far as the program uses it: an association
-- list in key order. Iteration is the list itself.
pub mod Order
pub mod Laws
use Prim.Native.Nat.Ordering.{lt, eq, gt}
use freenet_git.Prelude.{Option, none, some, List, [], ◌∷◌, Bytes, map}
use Order.{cmp}

abbrev pub BTreeMap {ℓ} : Type ℓ → Type ℓ
BTreeMap V = List (Bytes × V)

module _ {ℓ} {V : Type ℓ} where
  unfoldable pub get : Bytes → BTreeMap V → Option V
  get k [] = none
  get k ((j, v) ∷ m) = elim (cmp k j) [ eq ↦ some v | _ ↦ get k m ]

  unfoldable pub insert : Bytes → V → BTreeMap V → BTreeMap V
  insert k v [] = (k, v) ∷ []
  insert k v ((j, w) ∷ m) = elim (cmp k j) [
    | lt ↦ (k, v) ∷ (j, w) ∷ m
    | eq ↦ (k, v) ∷ m
    | gt ↦ (j, w) ∷ insert k v m
  ]

  -- The map that `remove` leaves; what it returns is `get` before it.
  unfoldable pub remove : Bytes → BTreeMap V → BTreeMap V
  remove k [] = []
  remove k ((j, w) ∷ m) = elim (cmp k j) [ eq ↦ m | _ ↦ (j, w) ∷ remove k m ]

  -- `keys()`, in order.
  abbrev pub keys : BTreeMap V → List Bytes
  keys = map (λ e. e.0)
