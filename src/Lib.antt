-- ===== src/Lib.antt =====
-- Verification of go-apla, a blockchain node whose contracts run on a virtual machine of its own.
--
-- The program's parts that are modelled, and how they work together. A node makes a block when
-- packages/utils/block_time_calculator.go says that it is its turn, and other nodes accept the block
-- by the same calculation; a node that makes a bad block is banned for a time. While transactions are
-- collected, while a block is made and while it is parsed, packages/block/limits.go holds each
-- transaction against the limits of the system. A transaction runs a contract, which packages/script
-- compiles to blocks of commands and vm.go runs, for a price that bounds it. The blocks and
-- transactions that nodes exchange are encoded by packages/converter, which also writes the addresses
-- of keys that packages/crypto computes, and encrypted by packages/crypto. packages/template, which
-- renders pages, has a small calculator of expressions of its own.
--
-- Prelude holds what the files share: tests on numbers (Tests), list functions over the native
-- numbers (Lists), integers and the wrap-around of int64 (Int), equality tests and association lists
-- for Go's maps (Eq).
--
-- Block.Limits is packages/block/limits.go: a record for each limiter, `..._init` and `..._check` for
-- its methods, `new_limits` for NewLimits and `check_limit` for Limits.CheckLimit, which returns the
-- error with the limiters after it. The clock, syspar and the state parameters of an ecosystem are the
-- record Env. Its children: Runs (a list of transactions, each with the environment it meets), Sizes,
-- Users, Ecosystems (what each limiter counts), Accept and Errors (the theorems).
--
-- Block.Serialization is packages/block/serialization.go with ParseBlockHeader of
-- packages/utils/utils.go: `marshall_block` and `unmarshall_block`, whose loop has the length of the
-- input as fuel, as every turn takes a byte. The hash, the signature and UnmarshallTransaction are
-- arguments; a transaction is known by its TxFullData, and the pointer that it gets to its header is
-- left out. Block.Merkle is
-- MerkleTreeRoot, with the number of data as fuel, as every level is shorter.
--
-- Script is packages/script/vm.go with the types of vminit.go and compile.go. A step of the machine is
-- a function from the state, RunTime, to an outcome and a state (Exec): a result, an error that
-- RunCode returns at once, a panic, an exhausted goroutine stack, a slice extended past its length, or
-- the end of the fuel. Value has the values and conversions, Operators the commands with two operands,
-- Runtime the compiled program and RunTime, Memory calcMem and the variables, Literals the
-- getResult... methods, Commands the other commands that run no block, Calls and ExtCalls callFunc and
-- extendFunc, Vm the switch of RunCode (`exec`) and Run the rest of it: `run_block` for a call of
-- RunCode, `loop` and `turn` for its loop, `leave_block` for what follows it. Entry has RunInit and
-- Run, whose recover turns a panic into an error.
--
-- A *Block is an index into the program; the stack and the blocks are lists with their last element
-- first, the other slices are in order. An array is a reference to a backing array of the heap with a
-- length, so two arrays share their elements as Go's slices do; maps are references to association
-- lists in the order of insertion. Strings are texts: a length counts characters, which is the number
-- of bytes for ASCII. int64 is an integer, wrapped where the code computes; the cost and the memory are
-- not wrapped, as they stay far from the ends of int64. float64 and decimal.Decimal are the record
-- Numbers. The record Machine has what surrounds a run: the functions of Go that contracts call
-- (`host`), the contract stack of `sc` (`append_stack`, `pop_stack`), the costs (`ext_cost`), the
-- functions that query the database (`func_calls_db`), the growth of slices and the depth of a
-- goroutine's stack.
--
-- Fuel: `loop` and the blocks nested in it share one count. Every turn of a loop takes one from the
-- cost and stops at 0, so a fuel above the cost is enough (Script.Cost.Ends), and more of it changes
-- nothing (Script.Cost.Fuel, over Script.Cost.Below). `calc_mem` has
-- the depth of the goroutine's stack as fuel, and its end is the crash that Go has there. `count_from`
-- of Schedule has the number of turns since the first block.
--
-- Script.Keeps says what a relation between states has to allow so that every step of the machine
-- keeps it; Cost, Depth and Booking are three such relations. Leaving is about the end of a block;
-- Integers, Assign and Cycles are about single commands.
--
-- Schedule is packages/utils/block_time_calculator.go: `count_block_time`, `validate_block` and
-- `time_to_generate`, with times as integers of nanoseconds. Turns has the loop against a division,
-- Accepts what follows from it.
--
-- Service is packages/service/node_ban.go: the local bans by key and the nodes of the system
-- parameters, `is_banned`, `register_bad_block` and `filter_hosts`, each with the clock of its call. The calls
-- come one after another: what other goroutines do between IsBanned and localBan of RegisterBadBlock,
-- which lock apart, is not modelled.
--
-- Template.Calculator is packages/template/calculate.go: `parsing` reads a text to tokens,
-- `postfix_from` is the loop of calculate over them, `calc_from` is calcExp and `calculate` the three
-- together, over the operations of a result type (Arithmetic). Postfix has expression trees with their
-- tokens and their values, Order the numbers of tokens.
--
-- OrderedMap is packages/types/map.go, the maps of contracts: a store of links by address, the fields
-- `m`, `head` and `tail`, and a method each; a field of a link that is not there is a panic. Nodes has
-- the links as a list, Represents the invariant, Put, Take and Reads what keeps and reads it, Refines a
-- map after any calls. The loops of Keys and Values have the number of entries as fuel.
--
-- Converter is packages/converter/converter.go as far as it encodes and reads back. Bytes has the
-- big-endian and little-endian bytes of a number and the loops over their zeros, Length the two forms
-- of a number with a length in front (`encode_len_int64`, `encode_length` and the decoders), Marshal
-- BinMarshal and BinUnmarshal, Buffer BinUnmarshalBuff, Hex the hexadecimal texts. A slice behind a
-- pointer or a bytes.Buffer is the list of the bytes that are left; a reader gives a value and the rest, an error, or a panic. What
-- reflection shows of a value is GoValue, of a type Kind; a float64 is its bits. Address has the texts
-- of addresses and their check digit, with Address of packages/crypto/converter.go, Ids AddressToID
-- and IDToAddress of packages/smart/funcs.go; a text is the list of its bytes, and the loops of
-- strconv recur on the 20 digits that 64 bits can have.
--
-- Crypto is the symmetric encryption of packages/crypto/crypto.go: `encrypt` and `decrypt`, the checks
-- of encryptCBC and decryptCBC and the padding; AES, CBC and the source of random bytes are a record
-- of functions (Library). A slice has no room behind its end, so that an append never writes into the
-- array of an argument. Padding has the padding, Back the way back.
--
-- Not modelled: logging, the texts of errors, arrays of map[string]string and maps other than
-- types.Map, which come from host functions, the printing of the calculator's result, and Go's order
-- of the keys of a map of tails, for which the model takes the order of insertion. The compiler, the
-- database, the network and the API are left out.
pub mod Prelude
pub mod Block
pub mod Script
pub mod OrderedMap
pub mod Schedule
pub mod Service
pub mod Template
pub mod Converter
pub mod Crypto
