-- ===== src/Block/Serialization.antt =====
-- Blocks as bytes: MarshallBlock and UnmarshallBlock (packages/block/serialization.go) with
-- ParseBlockHeader (packages/utils/utils.go). A bytes.Buffer is the list of its bytes that are left.
pub mod Header
pub mod Back
mod Tests
use go_apla.Prelude.{
  ℕ, zero, suc, ◌+◌, ◌-◌, Bool, not, true, false, ◌&&◌, Option, none, some, List, [], ◌∷◌, ◌++◌,
  map, length, take, drop, if◌then◌else◌, ltb,
}
use go_apla.Prelude.Int.{ℤ, pos, pos_part, ltb_ℤ, ◌==ℤ◌}
use go_apla.Converter.Bytes.{Bytes}
use go_apla.Converter.Length.{
  Refusal, Read, got, failed, crash, encode_len_int64_in_place, decode_len_int64_buf,
  decode_length_buf,
}
use go_apla.Converter.Hex.{bin_to_hex, dec_to_bin, bin_to_dec, encode_length_plus_data}
use go_apla.Converter.Address.{format_int}
use go_apla.Block.Merkle.{Root, root, no_data, unfinished, hashed, merkle_tree_root}

-- BlockData without its hash and its flag, which are not serialized.
pub record BlockData : Type 0 where
  pub block_id : ℤ
  pub time : ℤ
  pub ecosystem_id : ℤ
  pub key_id : ℤ
  pub node_position : ℤ
  pub sign : Bytes
  pub version : ℤ

-- `0,%d,%x,%d,%d,%d,%d,%s`
unfoldable pub for_sign : BlockData → Bytes → Bytes → Bytes
unfolding bin_to_hex format_int
for_sign header prev_hash mrkl_root =
    48 ∷ 44 ∷ format_int header.block_id
    ++ (44 ∷ bin_to_hex prev_hash)
    ++ (44 ∷ format_int header.time)
    ++ (44 ∷ format_int header.ecosystem_id)
    ++ (44 ∷ format_int header.key_id)
    ++ (44 ∷ format_int header.node_position)
    ++ (44 ∷ mrkl_root)

-- What is written to the buffer before the transactions.
unfoldable pub header_bytes : BlockData → Bytes → Bytes → Bytes
unfolding dec_to_bin encode_len_int64_in_place encode_length_plus_data
header_bytes header signed block_data_tx =
    dec_to_bin header.version 2
    ++ (dec_to_bin header.block_id 4
        ++ (dec_to_bin header.time 4
            ++ (dec_to_bin header.ecosystem_id 4
                ++ (encode_len_int64_in_place header.key_id
                    ++ (dec_to_bin header.node_position 1
                        ++ (encode_length_plus_data signed ++ block_data_tx))))))

unfoldable pub block_data_tx : List Bytes → Bytes
unfolding encode_length_plus_data
block_data_tx [] = []
block_data_tx (tr ∷ trs) = encode_length_plus_data tr ++ block_data_tx trs

-- The hash of no transactions is taken of `0`.
abbrev pub or_zero : List Bytes → List Bytes
or_zero [] = (48 ∷ []) ∷ []
or_zero (x ∷ xs) = x ∷ xs

abbrev pub root_of : (Bytes → Bytes) → List Bytes → Root
root_of double_hash mrkl = merkle_tree_root double_hash (length (or_zero mrkl)) (or_zero mrkl)

-- DoubleHash and SignString, which are of the cryptography, are parameters.
module _ (double_hash : Bytes → Bytes) (sign_string : Bytes → Bytes → Option Bytes) where
  unfoldable pub sign_root : BlockData → Bytes → Bytes → Root → Option Bytes
  unfolding for_sign
  sign_root header prev_hash key (root mrkl_root) =
      sign_string key (for_sign header prev_hash mrkl_root)
  sign_root header prev_hash key no_data = none
  sign_root header prev_hash key unfinished = none

  unfoldable pub signature : BlockData → List Bytes → Bytes → Bytes → Option Bytes
  unfolding sign_root hashed
  signature header tr_data prev_hash [] = some []
  signature header tr_data prev_hash (c ∷ key) =
      sign_root header prev_hash (c ∷ key) (root_of double_hash (map (hashed double_hash) tr_data))

  unfoldable pub marshall_block : BlockData → List Bytes → Bytes → Bytes → Option Bytes
  unfolding signature header_bytes block_data_tx
  marshall_block header tr_data prev_hash key = elim (signature header tr_data prev_hash key) [
    | none ↦ none
    | some signed ↦ some (header_bytes header signed (block_data_tx tr_data))
  ]

pub data BlockError : Type 0 where
  bad_length : BlockError
  too_large : BlockError
  decoding : Refusal → BlockError
  no_sign : BlockError
  transaction_too_big : BlockError
  transaction_empty : BlockError
  bad_transaction : BlockError

pub data Parse (A : Type 0) : Type 0 where
  parsed : A → Bytes → Parse A
  rejected : BlockError → Parse A
  panicked : Parse A

unfoldable pub with_sign : BlockData → Read ℤ → Parse BlockData
with_sign block (got n rest) =
    if ltb_ℤ (pos (length rest)) n
    then rejected no_sign
    else parsed (record block { sign = take (pos_part n) rest }) (drop (pos_part n) rest)
with_sign block (failed e rest) = rejected (decoding e)
with_sign block crash = panicked

unfoldable pub parse_sign : BlockData → Bytes → Parse BlockData
unfolding with_sign decode_length_buf
parse_sign block input =
    if ltb_ℤ (pos 1) block.block_id
    then with_sign block (decode_length_buf input)
    else parsed block (drop 1 input)

unfoldable pub parse_key : ℤ → ℤ → ℤ → ℤ → Read ℤ → Parse BlockData
unfolding parse_sign bin_to_dec
parse_key version block_id time ecosystem_id (got key_id rest) =
    let block : BlockData = record {
      block_id = block_id;
      time = time;
      ecosystem_id = ecosystem_id;
      key_id = key_id;
      node_position = bin_to_dec (take 1 rest);
      sign = [];
      version = version;
    } in
    parse_sign block (drop 1 rest)
parse_key version block_id time ecosystem_id (failed e rest) = rejected (decoding e)
parse_key version block_id time ecosystem_id crash = panicked

unfoldable pub parse_fields : ℤ → Bytes → Parse BlockData
unfolding parse_key bin_to_dec decode_len_int64_buf
parse_fields version input =
    let after_id = drop 4 input in
    let after_time = drop 4 after_id in
    parse_key version (bin_to_dec (take 4 input)) (bin_to_dec (take 4 after_id))
      (bin_to_dec (take 4 after_time)) (decode_len_int64_buf (drop 4 after_time))

unfoldable pub parse_block_header : ℤ → Bool → Bytes → Parse BlockData
unfolding parse_fields bin_to_dec
parse_block_header max_size check_max_size input =
    let rest = drop 2 input in
    if ltb (length input) 9
    then rejected bad_length
    else if check_max_size && ltb_ℤ max_size (pos (length rest))
    then rejected too_large
    else parse_fields (bin_to_dec (take 2 input)) rest

pub data Block (T : Type 0) : Type 0 where
  block : BlockData → List T → Root → Block T

-- UnmarshallTransaction, and the field TxFullData of what it gives, are arguments.
module _ {T : Type 0} (unmarshall_transaction : Bytes → Option T) where
  unfoldable pub then_cons : T → Parse (List T) → Parse (List T)
  then_cons t (parsed ts rest) = parsed (t ∷ ts) rest
  then_cons t (rejected e) = rejected e
  then_cons t panicked = panicked

  unfoldable pub cons_if : Option T → Parse (List T) → Parse (List T)
  unfolding then_cons
  cons_if none rest = rejected bad_transaction
  cons_if (some t) rest = then_cons t rest

  -- One turn of the loop over the transactions, on what follows it.
  unfoldable pub unmarshall_sized : (Bytes → Parse (List T)) → Read ℤ → Parse (List T)
  unfolding cons_if
  unmarshall_sized more (failed e rest) = rejected (decoding e)
  unmarshall_sized more crash = panicked
  unmarshall_sized more (got n rest) =
      if ltb_ℤ (pos (length rest)) n
      then rejected transaction_too_big
      else if n ==ℤ pos 0
      then rejected transaction_empty
      else cons_if (unmarshall_transaction (take (pos_part n) rest)) (more (drop (pos_part n) rest))

  -- The loop, on fuel: every turn takes a byte at least.
  unfoldable pub unmarshall_from : ℕ → Bytes → Parse (List T)
  unfolding unmarshall_sized decode_length_buf
  unmarshall_from fuel [] = parsed [] []
  unmarshall_from zero (b ∷ bs) = panicked
  unmarshall_from (suc fuel) (b ∷ bs) =
      unmarshall_sized (unmarshall_from fuel) (decode_length_buf (b ∷ bs))

  module _ (double_hash : Bytes → Bytes) (tx_full_data : T → Bytes) where
    -- The hash of a transaction that has any data.
    unfoldable pub hash_data : List T → List Bytes
    unfolding hashed
    hash_data [] = []
    hash_data (t ∷ ts) =
        let rest = hash_data ts in
        if ltb 0 (length (tx_full_data t)) then hashed double_hash (tx_full_data t) ∷ rest else rest

    unfoldable pub with_root : BlockData → Parse (List T) → Parse (Block T)
    unfolding hash_data
    with_root header (parsed ts rest) =
        parsed (block header ts (root_of double_hash (hash_data ts))) rest
    with_root header (rejected e) = rejected e
    with_root header panicked = panicked

    unfoldable pub then_transactions : Parse BlockData → Parse (Block T)
    unfolding with_root unmarshall_from
    then_transactions (parsed header rest) = with_root header (unmarshall_from (length rest) rest)
    then_transactions (rejected e) = rejected e
    then_transactions panicked = panicked

    unfoldable pub unmarshall_block : ℤ → Bool → Bytes → Parse (Block T)
    unfolding then_transactions parse_block_header
    unmarshall_block max_size first_block input =
        then_transactions (parse_block_header max_size (not first_block) input)
