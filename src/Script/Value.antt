-- ===== src/Script/Value.antt =====
-- The values of the virtual machine (packages/script/vm.go, vminit.go), the numbers that it takes
-- from elsewhere, and the conversions between them.
--
-- A value is what Go keeps in an interface{}: one constructor for each dynamic type that literals,
-- variables and operators of a contract produce. An array is Go's slice, a backing array of the heap
-- with a length; a map is a reference to an insertion-ordered types.Map. Strings are texts.
use Prim.Native.Char.{code}
use Prim.Native.String.{String, len}
use go_apla.Prelude.{
  ℕ, ◌+◌, ◌-◌, ◌*◌, ◌^◌, Bool, true, false, not, ◌&&◌, Option, none, some, List, [], leb, ltb, ◌==◌,
  if◌then◌else◌, length, get_elem?,
}
use go_apla.Prelude.Int.{ℤ, pos, ◌-ℤ◌, ◌==ℤ◌}

-- float64 and decimal.Decimal, with the operations that the machine uses of them.
pub record Numbers : Type 1 where
  pub Float : Type 0
  pub of_int : ℤ → Float
  pub parse_float : String → Float
  pub f_zero : Float
  pub f_neg : Float → Float
  pub f_add : Float → Float → Float
  pub f_sub : Float → Float → Float
  pub f_mul : Float → Float → Float
  pub f_div : Float → Float → Float
  pub f_eq : Float → Float → Bool
  pub f_lt : Float → Float → Bool
  pub Decimal : Type 0
  pub dec_of_int : ℤ → Decimal
  pub dec_of_float : Float → Decimal
  pub parse_dec : String → Option Decimal
  pub d_zero : Decimal
  pub d_floor : Decimal → Decimal
  pub d_add : Decimal → Decimal → Decimal
  pub d_sub : Decimal → Decimal → Decimal
  pub d_mul : Decimal → Decimal → Decimal
  pub d_div : Decimal → Decimal → Decimal
  pub d_eq : Decimal → Decimal → Bool
  pub d_lt : Decimal → Decimal → Bool

-- Go's int is on the stack only as a count; `names` is a map[string][]interface{} of the heap; `fn` is
-- a Go function among the extended variables, with the number of its parameters, and `run_time` the pointer to the run itself.
pub data Value (F D : Type 0) : Type 0 where
  nil : Value F D
  int : ℤ → Value F D
  int64 : ℤ → Value F D
  uint64 : ℕ → Value F D
  uint8 : ℕ → Value F D
  float : F → Value F D
  bool : Bool → Value F D
  str : String → Value F D
  bytes : List ℕ → Value F D
  dec : D → Value F D
  arr : ℕ → ℕ → Value F D
  dict : ℕ → Value F D
  names : ℕ → Value F D
  fn : String → ℕ → Value F D
  run_time : Value F D

-- The types of variables and parameters, `typesMap` of lex.go.
pub data Ty : Type 0 where
  t_bool t_bytes t_int t_address t_array t_map t_money t_float t_string : Ty

-- What the arrays and maps refer to. The length of a backing array is its capacity.
pub record Heap (F D : Type 0) : Type 0 where
  pub arrays : List (List (Value F D))
  pub dicts : List (List (String × Value F D))
  pub name_maps : List (List (String × List (Value F D)))

-- The errors of the package, with the message's parts.
pub data ErrorKind : Type 0 where
  msg_warning msg_error msg_info : ErrorKind

pub data VmError (V : Type 0) : Type 0 where
  cost_is_over memory_limit stack_is_empty unsupported_type div_zero : VmError V
  wrong_count_pars call_depth_limit no_indexing max_array_index max_map_count : VmError V
  array_index_type map_index_type bad_decimal unknown_command : VmError V
  not_integer : String → VmError V
  type_param : ℕ → VmError V
  sys_var : String → VmError V
  wrong_var : ℕ → VmError V
  unknown_extend : String → VmError V
  extend_function : String → VmError V
  unknown_function : String → VmError V
  host_error : String → VmError V
  thrown : ErrorKind → V → VmError V

module _ ⦃num : Numbers⦄ where
  abbrev pub Val : Type 0
  Val = Value num.Float num.Decimal

  abbrev pub Mem : Type 0
  Mem = Heap num.Float num.Decimal

  abbrev pub Err : Type 0
  Err = VmError Val

-- Out of range reads give the empty list: no reference of a run is out of range.
unfoldable pub at_ref {ℓ} : {A : Type ℓ} → List (List A) → ℕ → List A
at_ref heap r = elim (get_elem? heap r) [ none ↦ [] | some xs ↦ xs ]

-- strconv.ParseInt(s, 10, 64): an optional sign, then one digit or more, within int64.
unfoldable pub read_digits : String → ℕ → Option ℕ
read_digits String.[] n = some n
read_digits (String.◌∷◌ c s) n =
    let d = code c in if leb b'0' d && leb d b'9' then read_digits s (n * 10 + (d - b'0')) else none

unfoldable pub read_natural : String → Option ℕ
unfolding read_digits
read_natural String.[] = none
read_natural (String.◌∷◌ c s) = read_digits (String.◌∷◌ c s) 0

unfoldable pub in_range : Bool → ℕ → Option ℤ
in_range true n = if leb n (2 ^ 63) then some (pos 0 -ℤ pos n) else none
in_range false n = if ltb n (2 ^ 63) then some (pos n) else none

unfoldable pub signed : Bool → Option ℕ → Option ℤ
signed negative none = none
signed negative (some n) = in_range negative n

unfoldable pub parse_int : String → Option ℤ
unfolding read_natural in_range signed
parse_int String.[] = none
parse_int (String.◌∷◌ c s) =
    if code c == b'-'
    then signed true (read_natural s)
    else if code c == b'+'
    then signed false (read_natural s)
    else signed false (read_natural (String.◌∷◌ c s))

module _ ⦃num : Numbers⦄ where
  -- converter.ValueToInt on a string; the empty string is 0.
  unfoldable pub string_to_int : String → Option ℤ
  unfolding parse_int
  string_to_int s = if len s == 0 then some (pos 0) else parse_int s

  -- ValueToFloat
  unfoldable pub value_to_float : Val → num.Float
  value_to_float (float f) = f
  value_to_float (int64 n) = num.of_int n
  value_to_float (str s) = num.parse_float s
  value_to_float _ = num.f_zero

-- The result of ValueToDecimal: a value, the error of a text, or a failed type assertion.
pub data Converted (D : Type 0) : Type 0 where
  converted : D → Converted D
  bad_text crash : Converted D

module _ ⦃num : Numbers⦄ where
  unfoldable pub value_to_decimal : Val → Converted num.Decimal
  value_to_decimal (float f) = converted (num.d_floor (num.dec_of_float f))
  value_to_decimal (str s) = elim (num.parse_dec s) [
    | none ↦ bad_text
    | some d ↦ converted (num.d_floor d)
  ]
  value_to_decimal (int64 n) = converted (num.dec_of_int n)
  value_to_decimal (dec d) = converted d
  value_to_decimal _ = crash

  -- valueToBool; a value of another type counts as the decimal number that its print spells.
  unfoldable pub value_to_bool : Mem → Val → Bool
  value_to_bool heap (int n) = not (n ==ℤ pos 0)
  value_to_bool heap (int64 n) = not (n ==ℤ pos 0)
  value_to_bool heap (float f) = not (num.f_eq f num.f_zero)
  value_to_bool heap (bool b) = b
  value_to_bool heap (str s) = ltb 0 (len s)
  value_to_bool heap (bytes b) = ltb 0 (length b)
  value_to_bool heap (arr r n) = ltb 0 n
  value_to_bool heap (dict r) = ltb 0 (length (at_ref heap.dicts r))
  value_to_bool heap (dec d) = not (num.d_eq d num.d_zero)
  value_to_bool heap (uint64 n) = not (n == 0)
  value_to_bool heap (uint8 n) = not (n == 0)
  value_to_bool heap _ = false
