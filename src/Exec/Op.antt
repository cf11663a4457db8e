-- ===== src/Exec/Op.antt =====
-- exec_binary_op, exec_unary_op, exec_memory_op and exec_op of src/xair.c. A step returns its status
-- and the state that it leaves.
use xair.Prelude.{
  ℕ, ◌-◌, ◌/◌, ◌%◌, ◌||◌, not, List, [], ◌∷◌, bit_and, bit_or, bit_xor, ltb, leb, ◌==◌, length,
  if◌then◌else◌,
}
use xair.Prelude.Words.{size_max, add64, sub64, mul64, shl64, shr}
use xair.Status.{bad_arg, unsupported, Result, ret, err, ◌>>=◌, ◌>>◌, reject_if}
use xair.Ir.Types.{IrType, is_int, is_addr, is_mem, is_flags}
use xair.Ir.Opcode.{Opcode, opcode_equal}
use xair.Module.Data.{OpRec}
use xair.Module.Grow.{Host}
use xair.Exec.Scalar.{mask_for_bits, sign_bit_for_bits, bool_u64, is_set, signed_less_u64}
use xair.Exec.Flags.{
  exec_logic_flags, exec_flags, exec_shift_left_flags, exec_zf, exec_cf, exec_of, exec_sf, exec_pf,
  exec_af,
}
use xair.Exec.Fold.{type_at, scalar64, first_src, second_src}
use xair.Exec.State.{ExecValue, ExecState, exec_value_make, exec_define_value, exec_read_value}
use xair.Exec.Memory.{exec_load_u64, exec_store_u64}

-- The size in bytes of a scalar that memory holds.
unfoldable pub exec_byte_sized_scalar : IrType → Result ℕ
exec_byte_sized_scalar type = do
  reject_if (not (scalar64 type) || (type.bits == 1 || not (type.bits % 8 == 0))) unsupported
  ret (type.bits / 8)

unfoldable pub exec_shift_right_signed : (lhs shift bits : ℕ) → ℕ
exec_shift_right_signed lhs shift bits =
    if shift == 0
    then lhs
    else if is_set lhs (sign_bit_for_bits bits)
    then bit_or (shr lhs shift) (shl64 (mask_for_bits bits) (bits - shift))
    else shr lhs shift

-- The result of a binary operation on masked operands; `l` and `r` are the operands' types.
unfoldable pub binary_result : Opcode → (out l r : IrType) → (lhs rhs : ℕ) → Result ℕ
binary_result Opcode.add out l r lhs rhs = ret (add64 lhs rhs)
binary_result Opcode.sub out l r lhs rhs = ret (sub64 lhs rhs)
binary_result Opcode.mul out l r lhs rhs = ret (mul64 lhs rhs)
binary_result Opcode.and out l r lhs rhs = ret (bit_and lhs rhs)
binary_result Opcode.or out l r lhs rhs = ret (bit_or lhs rhs)
binary_result Opcode.xor out l r lhs rhs = ret (bit_xor lhs rhs)
binary_result Opcode.shl out l r lhs rhs =
    reject_if (leb l.bits rhs) unsupported >> ret (shl64 lhs rhs)
binary_result Opcode.lshr out l r lhs rhs =
    reject_if (leb l.bits rhs) unsupported >> ret (shr lhs rhs)
binary_result Opcode.ashr out l r lhs rhs =
    reject_if (leb l.bits rhs) unsupported >> ret (exec_shift_right_signed lhs rhs l.bits)
binary_result Opcode.eq out l r lhs rhs = ret (bool_u64 (lhs == rhs))
binary_result Opcode.ne out l r lhs rhs = ret (bool_u64 (not (lhs == rhs)))
binary_result Opcode.ult out l r lhs rhs = ret (bool_u64 (ltb lhs rhs))
binary_result Opcode.ule out l r lhs rhs = ret (bool_u64 (leb lhs rhs))
binary_result Opcode.slt out l r lhs rhs = ret (bool_u64 (signed_less_u64 lhs rhs l.bits))
binary_result Opcode.sle out l r lhs rhs =
    ret (bool_u64 (signed_less_u64 lhs rhs l.bits || lhs == rhs))
binary_result Opcode.concat out l r lhs rhs =
    reject_if (not (is_int out) || (ltb 64 out.bits || leb 64 r.bits)) unsupported
    >> ret (bit_or (shl64 lhs r.bits) rhs)
binary_result Opcode.addr_add out l r lhs rhs = ret (add64 lhs rhs)
binary_result Opcode.addr_sub out l r lhs rhs = ret (sub64 lhs rhs)
binary_result Opcode.flags_add out l r lhs rhs =
    reject_if (not (is_int l)) unsupported >> ret (exec_flags Opcode.flags_add lhs rhs l.bits)
binary_result Opcode.flags_sub out l r lhs rhs =
    reject_if (not (is_int l)) unsupported >> ret (exec_flags Opcode.flags_sub lhs rhs l.bits)
binary_result Opcode.flags_shl out l r lhs rhs =
    reject_if (not (is_int l) || (not (is_int r) || (rhs == 0 || leb l.bits rhs))) unsupported
    >> ret (exec_shift_left_flags lhs rhs l.bits)
binary_result _ out l r lhs rhs = err unsupported

unfoldable pub exec_binary_op :
    ExecState → OpRec → (out : IrType) → (lhs rhs : ExecValue) → Result ExecState
exec_binary_op s op out lhs rhs = do
  reject_if (not (scalar64 lhs.type) || ltb 64 rhs.type.bits) unsupported
  let l = bit_and lhs.lo (mask_for_bits lhs.type.bits)
  let r = bit_and rhs.lo (mask_for_bits rhs.type.bits)
  result ← binary_result op.opcode out lhs.type rhs.type l r
  exec_define_value s op.dst (exec_value_make out result 0)

abbrev pub flag_result : (lo flag : ℕ) → Result ℕ
flag_result lo flag = ret (bool_u64 (is_set lo flag))

abbrev pub both_scalar : (out src : IrType) → ℕ → Result ℕ
both_scalar out src result =
    reject_if (not (scalar64 out) || not (scalar64 src)) unsupported >> ret result

unfoldable pub unary_result : Opcode → (out src : IrType) → (lo : ℕ) → Result ℕ
unary_result Opcode.zext out src lo = both_scalar out src lo
unary_result Opcode.trunc out src lo = both_scalar out src lo
unary_result Opcode.int_to_addr out src lo = both_scalar out src lo
unary_result Opcode.addr_to_int out src lo = both_scalar out src lo
unary_result Opcode.flags_logic out src lo =
    reject_if (not (is_flags out) || (not (is_int src) || ltb 64 src.bits)) unsupported
    >> ret (exec_logic_flags lo src.bits)
unary_result Opcode.sext out src lo = both_scalar out src (
    if is_set lo (sign_bit_for_bits src.bits)
    then bit_or lo (size_max - mask_for_bits src.bits)
    else lo)
unary_result Opcode.flag_zf out src lo = flag_result lo exec_zf
unary_result Opcode.flag_cf out src lo = flag_result lo exec_cf
unary_result Opcode.flag_of out src lo = flag_result lo exec_of
unary_result Opcode.flag_sf out src lo = flag_result lo exec_sf
unary_result Opcode.flag_pf out src lo = flag_result lo exec_pf
unary_result Opcode.flag_af out src lo = flag_result lo exec_af
unary_result _ out src lo = err unsupported

unfoldable pub exec_unary_op :
    ExecState → OpRec → (out : IrType) → (src : ExecValue) → Result ExecState
exec_unary_op s op out src = do
  result ← unary_result op.opcode out src.type src.lo
  exec_define_value s op.dst (exec_value_make out result 0)

abbrev pub Status : Type 0
Status = Result (Unit {0}) × ExecState

-- An operation that fails before its one write leaves the state.
abbrev pub or_keep : ExecState → Result ExecState → Status
or_keep s (err e) = (err e, s)
or_keep s (ret s') = (ret tt, s')

unfoldable pub exec_load :
    ExecState → OpRec → (out : IrType) → (memory address : ExecValue) → Result ExecState
exec_load s op out memory address = do
  size ← exec_byte_sized_scalar out
  loaded ← exec_load_u64 s memory.type.aux address.lo size op.endian
  exec_define_value s op.dst (exec_value_make out loaded 0)

-- The third source of a store.
abbrev pub third_of : List ℕ → ℕ
third_of [] = 0
third_of (a ∷ rest) = first_of_rest rest
  where
    first_of_rest : List ℕ → ℕ
    first_of_rest [] = 0
    first_of_rest (b ∷ []) = 0
    first_of_rest (b ∷ c ∷ _) = c

-- From the store of the bytes on.
unfoldable pub after_store : OpRec → (out : IrType) → Status → Status
after_store op out (err e, s) = (err e, s)
after_store op out (ret u, s) =
    let s' = record s { mem_generation = add64 s.mem_generation 1 } in
    or_keep s' (exec_define_value s' op.dst (exec_value_make out s'.mem_generation 0))

abbrev pub store_sized :
    Host → ExecState → OpRec → IrType → (memory address value : ExecValue) → Result ℕ → Status
store_sized host s op out memory address value (err e) = (err e, s)
store_sized host s op out memory address value (ret size) =
    after_store op out (exec_store_u64 host s memory.type.aux address.lo value.lo size op.endian)

abbrev pub store_read :
    Host → ExecState → OpRec → IrType → (memory address : ExecValue) → Result ExecValue → Status
store_read host s op out memory address (err e) = (err e, s)
store_read host s op out memory address (ret value) =
    store_sized host s op out memory address value (exec_byte_sized_scalar value.type)

unfoldable pub exec_access :
    Host → ExecState → OpRec → (out : IrType) → (memory address : ExecValue) → Status
exec_access host s op out memory address =
    if not (is_mem memory.type) || not (is_addr address.type)
    then (err bad_arg, s)
    else if opcode_equal op.opcode Opcode.load
    then or_keep s (exec_load s op out memory address)
    else if opcode_equal op.opcode Opcode.store
    then store_read host s op out memory address (exec_read_value s (third_of op.src))
    else (err unsupported, s)

abbrev pub with_read : ExecState → Result ExecValue → (ExecValue → Status) → Status
with_read s (err e) k = (err e, s)
with_read s (ret v) k = k v

unfoldable pub exec_memory_op : Host → ExecState → OpRec → (out : IrType) → Status
exec_memory_op host s op out = with_read s (exec_read_value s (first_src op)) λ memory.
    with_read s (exec_read_value s (second_src op))
      λ address. exec_access host s op out memory address

unfoldable pub exec_op : Host → ExecState → OpRec → Status
exec_op host s op =
    let out = type_at s.module' op.dst in
    if opcode_equal op.opcode Opcode.const_u64
    then or_keep s (exec_define_value s op.dst (exec_value_make out op.imm 0))
    else if opcode_equal op.opcode Opcode.load || opcode_equal op.opcode Opcode.store
    then exec_memory_op host s op out
    else if length op.src == 1
    then with_read s (exec_read_value s (first_src op))
        (λ src. or_keep s (exec_unary_op s op out src))
    else if length op.src == 2
    then with_read s (exec_read_value s (first_src op)) (λ lhs.
      with_read s (exec_read_value s (second_src op))
        (λ rhs. or_keep s (exec_binary_op s op out lhs rhs)))
    else (err unsupported, s)
