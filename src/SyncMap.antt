-- ===== src/SyncMap.antt =====
-- syncmap/map.go: a map that counts its entries. Keys are tokens; the map below is a sequence of
-- entries with distinct keys, and the count a 32-bit pattern.
pub mod Counted
mod Tests
use touch_go_core.Prelude.{
  ℕ, ◌+◌, ◌-◌, ◌%◌, Bool, true, false, Option, none, some, List, [], ◌∷◌, ◌==◌, if◌then◌else◌,
}

abbrev pub word : ℕ
word = 4294967296

pub record Map (V : Type 0) : Type 0 where
  pub entries : List (ℕ × V)
  pub num : ℕ

module _ {V : Type 0} where
  unfoldable pub load : ℕ → List (ℕ × V) → Option V
  load k [] = none
  load k (e ∷ es) = if k == e.0 then some e.1 else load k es

  -- `Store` and `Delete` of the map below.
  unfoldable pub put : ℕ → V → List (ℕ × V) → List (ℕ × V)
  put k v [] = (k, v) ∷ []
  put k v (e ∷ es) = if k == e.0 then (k, v) ∷ es else e ∷ put k v es

  unfoldable pub take_out : ℕ → List (ℕ × V) → List (ℕ × V)
  take_out k [] = []
  take_out k (e ∷ es) = if k == e.0 then es else e ∷ take_out k es

  unfoldable pub present : Option V → Bool
  present none = false
  present (some v) = true

  unfoldable pub length_of : Map V → ℕ
  length_of m = m.num

  unfoldable pub store : ℕ → V → Map V → Map V
  store k v m = record {
    entries = put k v m.entries;
    num = if present (load k m.entries) then m.num else (m.num + 1) % word;
  }

  unfoldable pub delete : ℕ → Map V → Map V
  delete k m =
      if present (load k m.entries)
      then record { entries = take_out k m.entries; num = (m.num + (word - 1)) % word }
      else m

  -- The callback of `ClearAll` sees the entries until it says no; what it does is its own.
  unfoldable pub clear_all : Map V → Map V
  clear_all m = record { entries = []; num = 0 }

  unfoldable pub load_or_store : ℕ → V → Map V → (V × Bool) × Map V
  load_or_store k v m = elim (load k m.entries) [
    | some old ↦ ((old, true), m)
    | none ↦ ((v, false), record { entries = put k v m.entries; num = (m.num + 1) % word })
  ]

-- The operations, and what happens to a map in a sequence of them.
pub data Operation (V : Type 0) : Type 0 where
  store_op : ℕ → V → Operation V
  delete_op : ℕ → Operation V
  clear_op : Operation V
  load_or_store_op : ℕ → V → Operation V

unfoldable pub run : {V : Type 0} → Operation V → Map V → Map V
run (store_op k v) m = store k v m
run (delete_op k) m = delete k m
run clear_op m = clear_all m
run (load_or_store_op k v) m = (load_or_store k v m).1

unfoldable pub run_all : {V : Type 0} → List (Operation V) → Map V → Map V
run_all [] m = m
run_all (o ∷ os) m = run_all os (run o m)
