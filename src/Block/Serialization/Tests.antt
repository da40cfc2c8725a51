-- ===== src/Block/Serialization/Tests.antt =====
-- A second block with two transactions, and a tree over three texts.
use go_apla.Prelude.{
  ◌%◌, ◌≤◌, ◌≡◌, ◌≢◌, ◌⊎◌, inl, refl, false, Option, some, List, [], ◌∷◌, map, length, replicate,
  arith,
}
use go_apla.Prelude.Int.{pos, negsuc, to_word}
use go_apla.Converter.Bytes.{Bytes, trim_zeros, le_bytes}
use go_apla.Converter.Hex.{bin_to_hex}
use go_apla.Block.Merkle.{root, hashed, merkle_tree_root}
use go_apla.Block.Merkle.Binding.{merkle_tree_root_binds}
use go_apla.Block.Serialization.{
  BlockData, block, header_bytes, block_data_tx, root_of, marshall_block, unmarshall_block, parsed,
  signature,
}
use go_apla.Block.Serialization.Header.{IsSerializable}
use go_apla.Block.Serialization.Back.{AreParsed, no_more, one_more, unmarshall_block-marshall_block}

-- A hash of 32 bytes that tells lengths apart.
abbrev length_hash : Bytes → Bytes
length_hash v = length v % 256 ∷ replicate 31 7

length_hash_size : (v : Bytes) → length (hashed length_hash v) ≡ 64
unfolding hashed bin_to_hex
length_hash_size v = refl

abbrev texts : List Bytes
texts = (1 ∷ []) ∷ (2 ∷ 3 ∷ []) ∷ (4 ∷ []) ∷ []

merkle_tree_root_binds_example :
    ((r : Bytes) × (merkle_tree_root length_hash 3 texts ≡ root r))
    × (merkle_tree_root length_hash 3 texts ≡ merkle_tree_root length_hash 3 texts
        → (texts ≡ texts)
          ⊎ ((u : Bytes) × (v : Bytes) × (u ≢ v) × (hashed length_hash u ≡ hashed length_hash v)))
merkle_tree_root_binds_example =
    merkle_tree_root_binds length_hash length_hash_size 3 texts texts (omega arith) (omega arith)
      refl

abbrev second : BlockData
second = record {
  block_id = pos 2;
  time = pos 1_500_000_000;
  ecosystem_id = pos 1;
  key_id = negsuc 41;
  node_position = pos 3;
  sign = [];
  version = pos 1;
}

abbrev accept : Bytes → Option Bytes
accept tr = some tr

abbrev sign_with_nine : Bytes → Bytes → Option Bytes
sign_with_nine key text = some (9 ∷ 9 ∷ [])

abbrev two : List Bytes
two = (1 ∷ []) ∷ (2 ∷ 3 ∷ []) ∷ []

two-AreParsed : AreParsed accept (λ tr. tr) two two
two-AreParsed =
    one_more _ _ _ _ (omega arith) (omega arith) refl refl
      (one_more _ _ _ _ (omega arith) (omega arith) refl refl no_more)

second-IsSerializable : IsSerializable second
second-IsSerializable = ground arith

second_signed :
    signature length_hash sign_with_nine second two (7 ∷ []) (5 ∷ []) ≡ some (9 ∷ 9 ∷ [])
unfolding signature merkle_tree_root
second_signed = refl

second_size : length (header_bytes second (9 ∷ 9 ∷ []) (block_data_tx two)) ≤ 1002
unfolding header_bytes block_data_tx trim_zeros le_bytes to_word
second_size = omega arith

unmarshall_block-marshall_block_example :
    (bytes : Bytes) × (marshall_block length_hash sign_with_nine second two (7 ∷ []) (5 ∷ [])
      ≡ some bytes)
    × (unmarshall_block accept length_hash (λ tr. tr) (pos 1000) false bytes
        ≡ parsed
            (block
              (record second { sign = 9 ∷ 9 ∷ [] })
              two
              (root_of length_hash (map (hashed length_hash) two)))
            [])
unmarshall_block-marshall_block_example =
    unmarshall_block-marshall_block accept (λ tr. tr) length_hash sign_with_nine second two two
      (7 ∷ []) (5 ∷ []) (9 ∷ 9 ∷ []) (pos 1000) false second-IsSerializable two-AreParsed
      second_signed (inl (refl, omega arith)) second_size
