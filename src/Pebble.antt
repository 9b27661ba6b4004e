-- ===== src/Pebble.antt =====
-- What pkg/bigtable and pkg/engine use of github.com/cockroachdb/pebble, which is not part of the
-- repository: an ordered map from byte strings to byte strings, changed by batches of operations.
-- The database is a parameter with the documented behaviour as laws; `Pebble.Table` has a value of it.
pub mod Table
use cloudpebble.Base.{
  Bool, true, Option, none, some, List, [], ◌∷◌, ◌≡◌, if◌then◌else◌, ◌&&◌, All, ◌++◌, refl,
}
use cloudpebble.Base.Order.{Bytes, equal_bytes, in_range, le_bytes, lt_bytes}

-- One operation of a `pebble.Batch`.
pub data Op : Type 0 where
  set : Bytes → Bytes → Op
  delete : Bytes → Op
  delete_range : Bytes → Bytes → Op

-- A batch is the list of its operations, the first first.
abbrev pub Batch : Type 0
Batch = List Op

-- A key and its value, as an iterator shows them.
abbrev pub Entries : Type 0
Entries = List (Bytes × Bytes)

unfoldable pub find : Bytes → Entries → Option Bytes
find k [] = none
find k ((j, v) ∷ m) = if equal_bytes k j then some v else find k m

-- in strictly ascending order of the keys
abbrev pub IsSorted : Entries → Type 0
IsSorted [] = Unit
IsSorted ((k, v) ∷ m) = All (λ (e : Bytes × Bytes). lt_bytes k e.0 ≡ true) m × IsSorted m

-- `IterOptions`: a bound that is nil is no bound
unfoldable pub bounded : Option Bytes → Option Bytes → Bytes → Bool
bounded lo hi k =
    elim lo [ none ↦ true | some a ↦ le_bytes a k ]
    && elim hi [ none ↦ true | some b ↦ lt_bytes k b ]

-- What one operation makes of the value at a key.
unfoldable pub effect : Op → Bytes → Option Bytes → Option Bytes
effect (set j v) k old = if equal_bytes k j then some v else old
effect (delete j) k old = if equal_bytes k j then none else old
effect (delete_range lo hi) k old = if in_range lo hi k then none else old

-- What a batch makes of it, operation by operation.
unfoldable pub effects : Batch → Bytes → Option Bytes → Option Bytes
effects [] k old = old
effects (op ∷ ops) k old = effects ops k (effect op k old)

pub effects-append :
    (a b : Batch) (k : Bytes) (old : Option Bytes)
    → effects (a ++ b) k old ≡ effects b k (effects a k old)
unfolding effects
effects-append [] b k old = refl
effects-append (op ∷ a) b k old = effects-append a b k (effect op k old)

pub record Pebble : Type 1 where
  pub DB : Type 0
  -- `DB.Get`
  pub get : DB → Bytes → Option Bytes
  -- `DB.Apply`
  pub apply : DB → Batch → DB
  -- the keys and values that an iterator with these bounds goes through from `First` on
  pub scan : DB → Option Bytes → Option Bytes → Entries
  pub get-apply : (db : DB) (b : Batch) (k : Bytes) → get (apply db b) k ≡ effects b k (get db k)
  pub find-scan :
      (db : DB) (lo hi : Option Bytes) (k : Bytes)
      → find k (scan db lo hi) ≡ (if bounded lo hi k then get db k else none)
  pub scan-IsSorted : (db : DB) (lo hi : Option Bytes) → IsSorted (scan db lo hi)
