-- ===== src/Script/Runtime.antt =====
-- The blocks of a compiled program and the state of a run (packages/script/vminit.go, vm.go).
-- A *Block is the index of its block in the program. Slices that grow at the end (the stack, the
-- blocks) are lists with their last element first.
use Prim.Native.String.{String}
use text.Mathlib.Text.{◌==◌ as str_eq, starts_with}
use go_apla.Prelude.{ℕ, Bool, ◌||◌, Option, List}
use go_apla.Prelude.Int.{ℤ}
use go_apla.Prelude.Eq.{nat_eq, string_eq}
use go_apla.Script.Value.{Numbers, Value, Val, Heap, Err, VmError, Ty, ErrorKind}
use go_apla.Script.Operators.{BinOp}
use go_apla.Script.Exec.{Exec}

-- FuncName: the parameters of a tail `.Name(…)` of a function.
pub record FuncName : Type 0 where
  pub params : ℕ
  pub offset : List ℕ
  pub variadic : Bool

pub record FuncInfo : Type 0 where
  pub params : List Ty
  pub results : ℕ
  pub tails : Option (List (String × FuncName))

-- ExtFuncInfo: one entry of `auto` for each parameter, empty if the parameter comes from the stack.
pub record ExtFuncInfo : Type 0 where
  pub name : String
  pub auto : List String
  pub variadic : Bool

-- ObjInfo, as cmdCall carries it.
pub data Callee : Type 0 where
  func : ℕ → Callee
  ext_func : ExtFuncInfo → Callee

-- VarInfo: a variable of a block, or with no owner a name of the extended variables.
pub data VarInfo : Type 0 where
  local : ℕ → ℕ → VarInfo
  extend_var : String → VarInfo

-- mapItem, of array and map literals.
mutual
  pub data MapItem (V : Type 0) : Type 0 where
    map_const : V → MapItem V
    map_extend : String → MapItem V
    map_var : ℕ → ℕ → MapItem V
    map_map : Entries V → MapItem V
    map_array : Items V → MapItem V

  pub data Items (V : Type 0) : Type 0 where
    no_item : Items V
    item : MapItem V → Items V → Items V

  pub data Entries (V : Type 0) : Type 0 where
    no_entry : Entries V
    entry : String → MapItem V → Entries V → Entries V

-- ByteCode: a command with its value.
pub data ByteCode (V : Type 0) : Type 0 where
  push : V → ByteCode V
  push_str : String → ByteCode V
  if_block else_block while_block : ℕ → ByteCode V
  label continue_loop break_loop assign ret unwrap_arr index sign negate : ByteCode V
  assign_var : List VarInfo → ByteCode V
  error : ErrorKind → ByteCode V
  func_name : String → ℕ → ByteCode V
  call call_vari : Callee → ByteCode V
  var : ℕ → ℕ → ByteCode V
  extend call_extend : String → ByteCode V
  set_index : VarInfo → ByteCode V
  operator : BinOp → ByteCode V
  array_init : Items V → ByteCode V
  map_init : Entries V → ByteCode V
  unknown : ByteCode V

-- Block: `info` is there for a function.
pub record Block (V : Type 0) : Type 0 where
  pub info : Option FuncInfo
  pub vars : List Ty
  pub code : List (ByteCode V)

-- blockStack
pub record Frame : Type 0 where
  pub block : ℕ
  pub offset : ℕ

-- RunTime. `memVars` is one map for the variables and one for the extended ones.
pub record Runtime (F D : Type 0) : Type 0 where
  pub stack : List (Value F D)
  pub blocks : List Frame
  pub vars : List (Value F D)
  pub extend : List (String × Value F D)
  pub cost : ℤ
  pub err : Option (VmError (Value F D))
  pub unwrap : Bool
  pub call_depth : ℕ
  pub mem : ℤ
  pub mem_vars : List (ℕ × ℤ)
  pub mem_extend : List (String × ℤ)
  pub heap : Heap F D

-- What a call of an extended function gives back for one result.
pub data HostResult (V : Type 0) : Type 0 where
  host_value : V → HostResult V
  no_error : HostResult V
  error_text : String → HostResult V

module _ ⦃num : Numbers⦄ where
  abbrev pub State : Type 0
  State = Runtime num.Float num.Decimal

  abbrev pub Step : Type 0 → Type 0
  Step A = Exec State Err A

-- The program and what surrounds it: the virtual machine's cost tables, the functions that Go gives
-- to contracts, the growth of a slice that append reallocates, and the depth of a goroutine's stack.
-- `append_stack` and `pop_stack` are the methods of the Stacker that the extended variable `sc` holds,
-- and do nothing where it holds none. A function is called with its parameters and, if it is variadic, the rest of them.
pub record Machine ⦃num : Numbers⦄ : Type 0 where
  pub program : List (Block Val)
  pub ext_cost : Option (String → ℤ)
  pub func_calls_db : String → Bool
  pub host : String → List Val → Option (List Val) → Step (List (HostResult Val))
  pub append_stack : String → Step (Unit {0})
  pub pop_stack : String → Step (Unit {0})
  pub grow : ℕ → ℕ → ℕ
  pub go_stack : ℕ

unfoldable pub is_sys_var : String → Bool
is_sys_var name =
    str_eq name "block"
    || (str_eq name "block_key_id"
        || (str_eq name "block_time"
            || (str_eq name "data"
                || (str_eq name "ecosystem_id"
                    || (str_eq name "key_id"
                        || (str_eq name "node_position"
                            || (str_eq name "parent"
                                || (str_eq name "original_contract"
                                    || (str_eq name "sc"
                                        || (str_eq name "stack"
                                            || (str_eq name "this_contract"
                                                || (str_eq name "time"
                                                    || (str_eq name "type"
                                                        || (str_eq name "txcost"
                                                            || (str_eq name "txhash"
                                                            || (str_eq name "guest_key"
                                                            || starts_with name
                                                            "loop_"))))))))))))))))
