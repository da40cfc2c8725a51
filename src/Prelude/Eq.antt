-- ===== src/Prelude/Eq.antt =====
-- Equality tests as an interface, and Go maps as association lists over it.
use Prim.Native.Nat.{ℕ}
use Prim.Native.String.{String}
use mathlib.Core.Path.{◌≡◌, refl}
use mathlib.Core.Logic.{◌↔◌}
use mathlib.Core.Bool.{Bool, true, false}
use mathlib.Core.Option.{Option, none, some}
use mathlib.Core.List.{List, [], ◌∷◌, ◌++◌}
use native.Mathlib.Omega.{arith}
use text.Mathlib.Text.{◌==◌ as str_eq}
use text.Mathlib.TextEquality.{eq_iff}
use go_apla.Prelude.Tests.{if◌then◌else◌, if_true, if_false, ◌==◌, ==_iff}
use go_apla.Prelude.Int.{ℤ, ◌==ℤ◌}

pub record Eq {ℓ} (A : Type ℓ) : Type ℓ where
  pub beq : A → A → Bool
  pub beq_iff : (a b : A) → (beq a b ≡ true) ↔ (a ≡ b)

pub ==ℤ_iff : (a b : ℤ) → ((a ==ℤ b) ≡ true) ↔ (a ≡ b)
==ℤ_iff a b = ground arith

instance abbrev pub int_eq : Eq ℤ
int_eq = record { beq = ◌==ℤ◌; beq_iff = ==ℤ_iff }

instance abbrev pub nat_eq : Eq ℕ
nat_eq = record { beq = ◌==◌; beq_iff = ==_iff }

instance abbrev pub string_eq : Eq String
string_eq = record { beq = str_eq; beq_iff = eq_iff }

-- A Go map, read by key only.
module _ {ℓ κ} {K : Type ℓ} {V : Type κ} ⦃e : Eq K⦄ where
  unfoldable pub lookup : K → List (K × V) → Option V
  lookup k [] = none
  lookup k ((j, v) ∷ m) = if e.beq j k then some v else lookup k m

  unfoldable pub insert : K → V → List (K × V) → List (K × V)
  insert k v [] = (k, v) ∷ []
  insert k v ((j, w) ∷ m) = if e.beq j k then (k, v) ∷ m else (j, w) ∷ insert k v m

  pub lookup-insert :
      (k j : K) (v : V) (m : List (K × V))
      → lookup j (insert k v m) ≡ (if e.beq k j then some v else lookup j m)
  unfolding lookup insert
  lookup-insert k j v [] = refl
  lookup-insert k j v ((i, w) ∷ m) =
      ground (arith, e.beq_iff k j, e.beq_iff i k, e.beq_iff i j, lookup-insert k j v m)

  pub lookup_hit :
      (k j : K) (w : V) (m : List (K × V)) → e.beq j k ≡ true → lookup k ((j, w) ∷ m) ≡ some w
  unfolding lookup
  lookup_hit k j w m h = if_true (lookup k m) h

  pub lookup_miss :
      (k j : K) (w : V) (m : List (K × V)) → e.beq j k ≡ false → lookup k ((j, w) ∷ m) ≡ lookup k m
  unfolding lookup
  lookup_miss k j w m h = if_false (some w) h

  -- A key stands once at most.
  unfoldable pub delete : K → List (K × V) → List (K × V)
  delete k [] = []
  delete k ((j, w) ∷ m) = if e.beq j k then m else (j, w) ∷ delete k m

  -- Behind entries with other keys.
  pub lookup-append :
      (k : K) (xs ys : List (K × V)) → lookup k xs ≡ none → lookup k (xs ++ ys) ≡ lookup k ys
  unfolding lookup
  lookup-append k [] ys h = refl
  lookup-append k ((j, w) ∷ xs) ys h = ground (arith, lookup-append k xs ys)

  pub insert-append :
      (k : K) (v : V) (xs ys : List (K × V))
      → lookup k xs ≡ none
      → insert k v (xs ++ ys) ≡ xs ++ insert k v ys
  unfolding lookup insert
  insert-append k v [] ys h = refl
  insert-append k v ((j, w) ∷ xs) ys h = ground (arith, insert-append k v xs ys)

  pub delete-append :
      (k : K) (xs ys : List (K × V)) → lookup k xs ≡ none → delete k (xs ++ ys) ≡ xs ++ delete k ys
  unfolding lookup delete
  delete-append k [] ys h = refl
  delete-append k ((j, w) ∷ xs) ys h = ground (arith, delete-append k xs ys)

  -- Every entry of a key.
  unfoldable pub erase : K → List (K × V) → List (K × V)
  erase k [] = []
  erase k ((j, w) ∷ m) = if e.beq j k then erase k m else (j, w) ∷ erase k m

  pub lookup-erase :
      (k j : K) (m : List (K × V)) → lookup j (erase k m) ≡ (if e.beq k j then none else lookup j m)
  unfolding lookup erase
  lookup-erase k j [] = ground arith
  lookup-erase k j ((i, w) ∷ m) =
      ground (arith, e.beq_iff k j, e.beq_iff i k, e.beq_iff i j, lookup-erase k j m)
