-- ===== src/Block/Serialization/Back.antt =====
-- UnmarshallBlock on what MarshallBlock writes.
use go_apla.Prelude.{
  ℕ, zero, suc, ◌+◌, ◌^◌, ◌<◌, ◌≤◌, ◌≡◌, refl, ap, ◌∙◌, Bool, not, false, Option, none, some, List,
  [], ◌∷◌, ◌++◌, map, length, drop, ltb, length-append, take-append, drop-append, if_true, if_false,
  lt→ltb, arith,
}
use go_apla.Prelude.Int.{ℤ, pos, pos_part, ◌==ℤ◌}
use go_apla.Converter.Bytes.{Bytes}
use go_apla.Converter.Length.{got, encode_length, decode_length_buf}
use go_apla.Converter.Hex.{encode_length_plus_data}
use go_apla.Block.Merkle.{hashed}
use go_apla.Block.Serialization.{
  BlockData, header_bytes, block_data_tx, root_of, signature, marshall_block, Parse, parsed,
  rejected, transaction_too_big, transaction_empty, block, then_cons, cons_if, unmarshall_sized,
  unmarshall_from, hash_data, with_root, then_transactions, unmarshall_block,
}
use go_apla.Block.Serialization.Header.{
  IsSerializable, IsSigned, room, sign_read, parse_block_header-header_bytes,
}

not_empty : (n : ℕ) → 1 ≤ n → (pos n ==ℤ pos 0) ≡ false
not_empty n h = ground arith

encoded_length :
    (tr rest : Bytes) → length tr + length rest ≤ length (encode_length_plus_data tr ++ rest)
unfolding encode_length_plus_data
encoded_length tr rest =
    let e = encode_length (pos (length tr)) in
    omega (arith, length-append (e ++ tr) rest, length-append e tr)

module _ {T : Type 0} (parse : Bytes → Option T) (full : T → Bytes) where
  -- Transactions that have some bytes, with what UnmarshallTransaction makes of them.
  pub data AreParsed : List Bytes → List T → Type 0 where
    no_more : AreParsed [] []
    one_more :
        (tr : Bytes) (trs : List Bytes) (t : T) (ts : List T)
        → 1 ≤ length tr
        → length tr < 2 ^ 63
        → parse tr ≡ some t
        → full t ≡ tr
        → AreParsed trs ts
        → AreParsed (tr ∷ trs) (t ∷ ts)

  sized_lem :
      (more : Bytes → Parse (List T)) (tr rest : Bytes) (t : T)
      → 1 ≤ length tr
      → parse tr ≡ some t
      → unmarshall_sized parse more (got (pos (length tr)) (tr ++ rest))
        ≡ then_cons parse t (more rest)
  unfolding unmarshall_sized cons_if
  sized_lem more tr rest t h e =
      if_false (rejected transaction_too_big) (room tr rest)
      ∙ if_false {b = pos (length tr) ==ℤ pos 0} (rejected transaction_empty)
          (not_empty (length tr) h)
      ∙ ap (λ o. cons_if parse o (more (drop (length tr) (tr ++ rest))))
          (ap parse (take-append tr rest) ∙ e)
      ∙ ap (λ r. then_cons parse t (more r)) (drop-append tr rest)

  from_end : (fuel : ℕ) → unmarshall_from parse fuel [] ≡ parsed [] []
  unfolding unmarshall_from
  from_end zero = refl
  from_end (suc fuel) = refl

  from_step :
      (fuel : ℕ) (xs : Bytes)
      → 1 ≤ length xs
      → unmarshall_from parse (suc fuel) xs
        ≡ unmarshall_sized parse (unmarshall_from parse fuel) (decode_length_buf xs)
  unfolding unmarshall_from
  from_step fuel [] h = absurd (omega (arith, h))
  from_step fuel (x ∷ xs) h = refl

  from_lem :
      (trs : List Bytes) (ts : List T) (fuel : ℕ)
      → AreParsed trs ts
      → length (block_data_tx trs) ≤ fuel
      → unmarshall_from parse fuel (block_data_tx trs) ≡ parsed ts []
  unfolding block_data_tx then_cons
  from_lem _ _ fuel no_more k = from_end fuel
  from_lem _ _ zero (one_more tr trs t ts h l e f more) k =
      absurd (omega (arith, k, h, encoded_length tr (block_data_tx trs)))
  from_lem _ _ (suc fuel) (one_more tr trs t ts h l e f more) k =
      let rest = block_data_tx trs in
      let long = encoded_length tr rest in
      from_step fuel (encode_length_plus_data tr ++ rest) (omega (arith, h, long))
      ∙ ap (unmarshall_sized parse (unmarshall_from parse fuel)) (sign_read tr rest l)
      ∙ sized_lem (unmarshall_from parse fuel) tr rest t h e
      ∙ ap (then_cons parse t) (from_lem trs ts fuel more (omega (arith, k, h, long)))

  module _ (double_hash : Bytes → Bytes) where
    hash_data_lem :
        (trs : List Bytes) (ts : List T)
        → AreParsed trs ts
        → hash_data parse double_hash full ts ≡ map (hashed double_hash) trs
    unfolding hash_data
    hash_data_lem _ _ no_more = refl
    hash_data_lem _ _ (one_more tr trs t ts h l e f more) =
        if_true (hash_data parse double_hash full ts)
          (ap (λ b. ltb 0 (length b)) f ∙ lt→ltb 0 (length tr) (omega (arith, h)))
        ∙ ap (λ b. hashed double_hash b ∷ hash_data parse double_hash full ts) f
        ∙ ap (λ r. hashed double_hash tr ∷ r) (hash_data_lem trs ts more)

    -- A header with room for its numbers and transactions that UnmarshallTransaction takes, signed if
    -- the block is not the first, are read back by UnmarshallBlock from what MarshallBlock gives,
    -- with the root that was signed, if the bytes behind the version are within the maximal size.
    pub unmarshall_block-marshall_block :
        (sign_string : Bytes → Bytes → Option Bytes) (h : BlockData) (trs : List Bytes)
        (ts : List T) (prev_hash key signed : Bytes) (max_size : ℤ) (first_block : Bool)
        → IsSerializable h
        → AreParsed trs ts
        → signature double_hash sign_string h trs prev_hash key ≡ some signed
        → IsSigned h signed
        → length (header_bytes h signed (block_data_tx trs)) ≤ pos_part max_size + 2
        → (bytes : Bytes) × (marshall_block double_hash sign_string h trs prev_hash key
            ≡ some bytes)
          × (unmarshall_block parse double_hash full max_size first_block bytes
              ≡ parsed
                  (block
                    (record h { sign = signed })
                    ts
                    (root_of double_hash (map (hashed double_hash) trs)))
                  [])
    unfolding marshall_block unmarshall_block then_transactions with_root
    unmarshall_block-marshall_block sign_string h trs ts prev_hash key signed max_size first_block k
          p e s fits =
        let txs = block_data_tx trs in
        let header = record h { sign = signed } in
        (
          header_bytes h signed txs,
          ap (λ o. elim o [ none ↦ none | some signed ↦ some (header_bytes h signed txs) ]) e,
          ap (then_transactions parse double_hash full)
                (parse_block_header-header_bytes h signed txs max_size (not first_block) k s fits)
              ∙ ap (with_root parse double_hash full header)
                  (from_lem trs ts (length txs) p (omega arith))
              ∙ ap (λ m. parsed (block header ts (root_of double_hash m)) [])
                  (hash_data_lem trs ts p),
        )
