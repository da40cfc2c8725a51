-- ===== src/Script/Booking.antt =====
-- The memory that a run has booked (packages/script/vm.go): `mem` against the sizes in memVars.
pub mod Runs
use Prim.Native.String.{String}
use go_apla.Prelude.{
  ℕ, zero, suc, ◌+◌, ◌-◌, ◌≤◌, ◌<◌, Bool, true, false, Option, none, some, List, [], ◌∷◌, ◌++◌, ◌≡◌,
  refl, sym, ap, ◌∙◌, arith, length, length-append, length-set, set, ltb, ◌==◌, if◌then◌else◌,
}
use go_apla.Prelude.Int.{ℤ, pos, negsuc, ◌+ℤ◌, ◌-ℤ◌, int_laws}
use go_apla.Prelude.Eq.{Eq, nat_eq, string_eq, lookup, insert, lookup-insert}
use go_apla.Script.Value.{Numbers, Val}
use go_apla.Script.Exec.{◌>>=◌, ◌>>◌}
use go_apla.Script.Runtime.{State, Step, Machine}
use go_apla.Script.Keeps.{Relation, Keeps, Rules}
use go_apla.Script.Memory.{size_of, book_var, book_extend, append_var}

-- Integer steps of the booking.
swap : (n n' r : ℤ) → n +ℤ r ≡ n' +ℤ r +ℤ (n -ℤ n')
swap n n' r = grind int_laws

shift : (n r d : ℤ) → n +ℤ (r +ℤ d) ≡ n +ℤ r +ℤ d
shift n r d = grind int_laws

add_var_sum : (r d n : ℤ) → r +ℤ d +ℤ n ≡ r +ℤ (n -ℤ pos 0) +ℤ d
add_var_sum r d n = grind int_laws

left_sum : (r d n : ℤ) → r +ℤ d +ℤ n ≡ r +ℤ n +ℤ d
left_sum r d n = grind int_laws

start_sum : (n : ℤ) → n +ℤ pos 0 ≡ pos 0 +ℤ (n -ℤ pos 0)
start_sum n = grind int_laws

-- The sum of the sizes in an association list.
module _ {K : Type 0} ⦃e : Eq K⦄ where
  unfoldable pub total : List (K × ℤ) → ℤ
  unfolding ◌+ℤ◌
  total [] = pos 0
  total ((k, n) ∷ rest) = n +ℤ total rest

  total_if :
      (b : Bool) (k k' : K) (n n' : ℤ) (o : Option ℤ) (ms ms' : List (K × ℤ))
      → total ms' ≡ total ms +ℤ (n -ℤ size_of o)
      → total (if b then (k, n) ∷ ms else (k', n') ∷ ms')
        ≡ n' +ℤ total ms +ℤ (n -ℤ size_of (if b then some n' else o))
  unfolding total size_of
  total_if true k k' n n' o ms ms' h = swap n n' (total ms)
  total_if false k k' n n' o ms ms' h = ap (λ r. n' +ℤ r) h ∙ shift n' (total ms) (n -ℤ size_of o)

  -- To write a size is to take the old one off and to put the new one on.
  pub total-insert :
      (k : K) (n : ℤ) (ms : List (K × ℤ))
      → total (insert k n ms) ≡ total ms +ℤ (n -ℤ size_of (lookup k ms))
  unfolding total insert lookup size_of
  total-insert k n [] = start_sum n
  total-insert k n ((k', n') ∷ ms) =
      total_if (e.beq k' k) k k' n n' (lookup k ms) ms (insert k n ms) (total-insert k n ms)

module _ ⦃num : Numbers⦄ where
  -- `mem` is the sum of the sizes in memVars, and only variables that are there have a size.
  pub record Booked (s : State) : Type 0 where
    pub sums : s.mem ≡ total s.mem_vars +ℤ total s.mem_extend
    pub known : (k : ℕ) → length s.vars ≤ k → lookup k s.mem_vars ≡ none

  abbrev pub KeepsBooked : Relation
  KeepsBooked s b t = Booked s → Booked t

  pub book_var-Booked :
      (k n : ℕ) (s : State) → k < length s.vars → Booked s → Booked (book_var k n s)
  unfolding book_var
  book_var-Booked k n s h b = record {
    sums =
        ap (λ r. r +ℤ (pos n -ℤ size_of (lookup k s.mem_vars))) b.sums
        ∙ left_sum (total s.mem_vars) (total s.mem_extend) _
        ∙ ap (λ r. r +ℤ total s.mem_extend) (sym (total-insert k (pos n) s.mem_vars));
    known = λ j l. ground (arith, lookup-insert k j (pos n) s.mem_vars, b.known j l);
  }

  pub book_extend-Booked : (k : String) (n : ℕ) (s : State) → Booked s → Booked (book_extend k n s)
  unfolding book_extend
  book_extend-Booked k n s b = record {
    sums =
        ap (λ r. r +ℤ (pos n -ℤ size_of (lookup k s.mem_extend))) b.sums
        ∙ sym (shift (total s.mem_vars) (total s.mem_extend) _)
        ∙ ap (λ r. total s.mem_vars +ℤ r) (sym (total-insert k (pos n) s.mem_extend));
    known = b.known;
  }

  pub append_var-Booked : (v : Val) (n : ℕ) (s : State) → Booked s → Booked (append_var v n s)
  unfolding append_var size_of
  append_var-Booked v n s b = record {
    sums = grind (
      int_laws,
      total-insert (length s.vars) (pos n) s.mem_vars,
      b.sums,
      b.known (length s.vars) (omega arith),
    );
    known = λ j l. ground (
      arith,
      lookup-insert (length s.vars) j (pos n) s.mem_vars,
      length-append s.vars (v ∷ []),
      b.known j,
    );
  }
