-- ===== src/ArgPacking.antt =====
-- src/arg_packing.h: `arg_pack_write_fast`. The variadic list is a list of values; a value of
-- another sort than the type code asks for, or none, is undefined behaviour and a `fault`.
pub mod Laws
pub mod Stored
use cnano_log.Base.{
  ℕ, ◌+◌, ◌%◌, ◌^◌, List, [], ◌∷◌, ◌++◌, Option, some, none, if◌then◌else◌, ltb, length, take,
}
use cnano_log.Base.Bytes.{le_bytes}
use cnano_log.Outcome.{Outcome, done, rejected, fault, ◌>>=◌}
use cnano_log.Format.{
  ArgType, arg_none, int32, int64, uint32, uint64, double, string, pointer, char, other,
}

-- What the caller passed: the bit pattern of a number or pointer, or a string, which may be NULL.
pub data VaArg : Type 0 where
  word : ℕ → VaArg
  chars : Option (List ℕ) → VaArg

-- `write_ptr` holds the bytes written so far; `args` the values not yet taken.
pub record Packing : Type 0 where
  pub write_ptr : List ℕ
  pub args : List VaArg

module _ (buffer_size : ℕ) where
  -- `if (write_ptr + n > buffer_end) return 0; memcpy(...)` of a number cut to `n` bytes.
  unfoldable pub put_word : ℕ → Packing → Outcome Packing
  put_word n s = elim s.args [
    | [] ↦ fault
    | chars c ∷ r ↦ fault
    | word v ∷ r ↦
        if ltb buffer_size (length s.write_ptr + n)
        then rejected
        else done (record { write_ptr = s.write_ptr ++ le_bytes n v; args = r })
  ]

  -- `len` is a `uint32_t`, so the length of a longer string is cut.
  unfoldable pub put_chars : List ℕ → List VaArg → List ℕ → Outcome Packing
  put_chars write_ptr r str =
      let len = length str % 2 ^ 32 in
      if ltb buffer_size (length write_ptr + 4 + len)
      then rejected
      else done (record { write_ptr = write_ptr ++ (le_bytes 4 len ++ take len str); args = r })

  -- One round of the loop.
  unfoldable pub pack_arg : ArgType → Packing → Outcome Packing
  unfolding put_word put_chars
  pack_arg char s = put_word 1 s
  pack_arg int32 s = put_word 4 s
  pack_arg int64 s = put_word 8 s
  pack_arg uint32 s = put_word 4 s
  pack_arg uint64 s = put_word 8 s
  pack_arg double s = put_word 8 s
  pack_arg pointer s = put_word 8 s
  pack_arg string s = elim s.args [
    | [] ↦ fault
    | word v ∷ r ↦ fault
    | chars none ∷ r ↦ put_chars s.write_ptr r []
    | chars (some str) ∷ r ↦ put_chars s.write_ptr r str
  ]
  pack_arg arg_none s = done s
  pack_arg (other n) s = done s

  unfoldable pub pack_args : List ArgType → Packing → Outcome Packing
  pack_args [] s = done s
  pack_args (t ∷ ts) s = pack_arg t s >>= pack_args ts

  -- The bytes written; the source returns their number, and 0 for `rejected`.
  unfoldable pub arg_pack_write_fast : List ArgType → List VaArg → Outcome (List ℕ)
  arg_pack_write_fast arg_types args =
      pack_args arg_types (record { write_ptr = []; args = args }) >>= λ s. done s.write_ptr

  -- The bytes that the loop has stored when it ends or returns.
  pub stored_args : List ArgType → Packing → List ℕ
  stored_args [] s = s.write_ptr
  stored_args (t ∷ ts) s = elim (pack_arg t s) [
    | done s' ↦ stored_args ts s'
    | rejected ↦ s.write_ptr
    | fault ↦ s.write_ptr
  ]
