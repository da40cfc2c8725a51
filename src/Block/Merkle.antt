-- ===== src/Block/Merkle.antt =====
-- The Merkle tree over the transactions of a block: MerkleTreeRoot (packages/utils/utils.go).
pub mod Binding
use go_apla.Prelude.{ℕ, zero, suc, List, [], ◌∷◌, ◌++◌, map, Option, none, some}
use go_apla.Converter.Bytes.{Bytes}
use go_apla.Converter.Hex.{bin_to_hex}

-- A root, the panic of an empty slice, or a loop that has not ended.
pub data Root : Type 0 where
  root : Bytes → Root
  no_data : Root
  unfinished : Root

-- DoubleHash, with the one provider that is set, is the parameter.
module _ (double_hash : Bytes → Bytes) where
  unfoldable pub hashed : Bytes → Bytes
  hashed v = bin_to_hex (double_hash v)

  -- The inner loop: a level from the one before; a last one without another goes up as it is.
  unfoldable pub next_level : List Bytes → List Bytes
  unfolding hashed
  next_level [] = []
  next_level (x ∷ []) = x ∷ []
  next_level (x ∷ y ∷ xs) = hashed (x ++ y) ∷ next_level xs

  -- The outer loop, on fuel.
  unfoldable pub climb : ℕ → List Bytes → Root
  unfolding next_level
  climb fuel [] = no_data
  climb fuel (x ∷ []) = root x
  climb zero (x ∷ y ∷ xs) = unfinished
  climb (suc fuel) (x ∷ y ∷ xs) = climb fuel (next_level (x ∷ y ∷ xs))

  unfoldable pub merkle_tree_root : ℕ → List Bytes → Root
  unfolding climb hashed
  merkle_tree_root fuel data_array = climb fuel (map hashed data_array)
