-- ===== src/Script/Cycles.antt =====
-- calcMem (packages/script/vm.go) on an array that holds itself.
use go_apla.Prelude.{
  ℕ, zero, suc, ◌<◌, Option, none, some, List, [], ◌∷◌, ◌≡◌, refl, arith, get_elem?, take,
}
use go_apla.Script.Value.{Numbers, Val, Mem, arr, at_ref}
use go_apla.Script.Memory.{sum_mem, calc_mem}

module _ ⦃num : Numbers⦄ where
  sum_mem-none :
      (f : Val → Option ℕ) (vs : List Val) (i n : ℕ) (v : Val)
      → get_elem? vs i ≡ some v
      → i < n
      → f v ≡ none
      → sum_mem f (take n vs) ≡ none
  unfolding sum_mem
  sum_mem-none f [] i n v h l e = ground arith
  sum_mem-none f (w ∷ vs) i zero v h l e = ground arith
  sum_mem-none f (w ∷ vs) zero (suc n) v h l e = ground (arith, e)
  sum_mem-none f (w ∷ vs) (suc i) (suc n) v h l e =
      ground (arith, sum_mem-none f vs i n v h (omega arith) e)

  -- An array that is one of its own elements has no size at any depth of recursion.
  pub calc_mem-cyclic :
      (heap : Mem) (r n i d : ℕ)
      → get_elem? (at_ref heap.arrays r) i ≡ some (arr r n)
      → i < n
      → calc_mem d heap (arr r n) ≡ none
  unfolding calc_mem
  calc_mem-cyclic heap r n i zero h l = refl
  calc_mem-cyclic heap r n i (suc d) h l =
      rw
        (sum_mem-none (calc_mem d heap) (at_ref heap.arrays r) i n (arr r n) h l
          (calc_mem-cyclic heap r n i d h l))
        refl
