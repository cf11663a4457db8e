-- ===== src/Exec/AgreeTests.antt =====
-- The folder and the executor of src/xair.c at a shift of constants and the overflow that is extracted
-- from its flags.
use xair.Prelude.{ℕ, zero, suc, ◌≡◌, refl, ap, true, none, some, [], ◌∷◌, bit_and}
use xair.Status.{ret}
use xair.Ir.Types.{IrType, type_i, type_flags, type_equal, type_is_valid, is_value_type}
use xair.Ir.Opcode.{Opcode}
use xair.Module.Data.{Module, OpRec, ValueRec, new_module}
use xair.Module.Build.{new_block}
use xair.Exec.Scalar.{mask_for_bits, sign_bit_for_bits, truncate_to_type}
use xair.Exec.Fold.{
  Summary, fold_constant_op, fold_value, fold_to_const, const_u64_value, op_of, extract, extract_of,
  summary_result, summary_of, compute_flag_extract,
}
use xair.Exec.State.{
  exec_read_value, exec_define_value, exec_value_make, ExecValue, ExecState, new_state,
}
use xair.Exec.Op.{exec_op, exec_binary_op, binary_result, unary_result}
use xair.Exec.Flags.{exec_shift_left_flags}
use xair.Exec.Agree.Flags.{FlagsHold, exec_op-packed_flags}
use xair.Exec.Agree.Constants.{ConstantsHold, defines, new_state-reads_constant}
use xair.Exec.Agree.{fold_constant_op-exec_op}
use xair.Exec.FlagBits.{packed_flags, shl, extract-unary_result}
use xair.Verify.{
  verify_op, verify_sources, verify_unary_op, verify_binary_op, binary_types_fit, unary_types_fit,
}
use xair.Exec.Tests.{generous, value_of, op_rec}

-- 0x81 shifted left by 1 in 8 bits: the result is 2, the carry and the overflow are set.
masked_lhs : bit_and 0x81 (mask_for_bits 8) ≡ 0x81
unfolding mask_for_bits
masked_lhs = refl

masked_rhs : bit_and 1 (mask_for_bits 8) ≡ 1
unfolding mask_for_bits
masked_rhs = refl

shifted : summary_result Opcode.flags_shl 0x81 1 8 ≡ some 2
unfolding summary_result mask_for_bits
shifted = refl

overflows :
    extract Opcode.flag_of
      (record { opcode = Opcode.flags_shl; bits = 8; lhs = 0x81; rhs = 1; result = 2 })
    ≡ some 1
unfolding extract extract_of sign_bit_for_bits
overflows = refl

extract-unary_result_example :
    unary_result Opcode.flag_of (type_i 1) (type_flags 6) (packed_flags Opcode.flags_shl 0x81 1 8)
    ≡ ret 1
extract-unary_result_example =
    extract-unary_result Opcode.flags_shl Opcode.flag_of (type_i 1) (type_flags 6) 0x81 1 8 2 1 shl
      masked_lhs masked_rhs shifted overflows

-- The same shift in a module, and the extraction of its overflow.
abbrev shift : OpRec
shift = op_rec Opcode.flags_shl 2 (0 ∷ 1 ∷ []) 0

abbrev overflow : OpRec
overflow = op_rec Opcode.flag_of 3 (2 ∷ []) 0

abbrev typed_value : IrType → (op : ℕ) → ValueRec
typed_value type op = record { type = type; block = 0; op = op; name = b'v' ∷ [] }

abbrev shifter : Module
shifter = record new_module {
  values = record {
    items =
        value_of 0 0 ∷ value_of 0 1 ∷ typed_value (type_flags 6) 2 ∷ typed_value (type_i 1) 3 ∷ [];
    cap = 8;
  };
  ops = record {
    items =
        op_rec Opcode.const_u64 0 [] 0x81 ∷ op_rec Opcode.const_u64 1 [] 1 ∷ shift ∷ overflow ∷ [];
    cap = 8;
  };
  blocks = record { items = new_block [] 0 ∷ []; cap = 8 };
}

abbrev flags_value : ExecValue
flags_value = record { type = type_flags 6; lo = packed_flags Opcode.flags_shl 0x81 1 8; hi = 0 }

-- The state after the shift.
abbrev computed : ExecState
computed = record (new_state shifter) { values = none ∷ none ∷ some flags_value ∷ none ∷ [] }

shift-runs : exec_op generous (new_state shifter) shift ≡ (ret tt, computed)
unfolding exec_op exec_binary_op binary_result exec_read_value exec_define_value exec_value_make
    truncate_to_type mask_for_bits exec_shift_left_flags type_equal
shift-runs = refl

shift-verified : verify_op shifter shift ≡ ret tt
unfolding verify_op verify_sources verify_binary_op binary_types_fit is_value_type type_is_valid
    type_equal
shift-verified = refl

shift-defines : op_of shifter 2 ≡ some shift
unfolding op_of
shift-defines = refl

abbrev summed : Summary
summed = record { opcode = Opcode.flags_shl; bits = 8; lhs = 0x81; rhs = 1; result = 2 }

shift-summed : summary_of shifter 2 ≡ some summed
unfolding summary_of summary_result const_u64_value op_of truncate_to_type mask_for_bits
shift-summed = refl

exec_op-packed_flags_example :
    exec_op generous (new_state shifter) shift
    ≡ defines (new_state shifter) shift (packed_flags Opcode.flags_shl 0x81 1 8)
exec_op-packed_flags_example =
    exec_op-packed_flags generous (new_state shifter) shift summed
      (new_state-reads_constant shifter) shift-verified shift-defines shift-summed

computed-ConstantsHold : ConstantsHold computed
unfolding const_u64_value op_of exec_read_value exec_value_make
computed-ConstantsHold zero c h = cc
computed-ConstantsHold (suc zero) c h = cc
computed-ConstantsHold (suc (suc zero)) c h = cc
computed-ConstantsHold (suc (suc (suc zero))) c h = cc
computed-ConstantsHold (suc (suc (suc (suc v)))) c h = cc

computed-FlagsHold : FlagsHold computed
unfolding summary_of summary_result const_u64_value op_of exec_read_value truncate_to_type
    mask_for_bits
computed-FlagsHold zero sum h = cc
computed-FlagsHold (suc zero) sum h = cc
computed-FlagsHold (suc (suc zero)) sum h =
    let same : summed ≡ sum = cc in
    (flags_value, refl, ap (λ q. packed_flags q.opcode q.lhs q.rhs q.bits) same)
computed-FlagsHold (suc (suc (suc zero))) sum h = cc
computed-FlagsHold (suc (suc (suc (suc v)))) sum h = cc

overflow-verified : verify_op shifter overflow ≡ ret tt
unfolding verify_op verify_sources verify_unary_op unary_types_fit is_value_type type_is_valid
overflow-verified = refl

flags-valid : is_value_type (type_flags 6) ≡ true
unfolding is_value_type type_is_valid
flags-valid = refl

abbrev one : OpRec
one = op_rec Opcode.const_u64 3 [] 1

overflow-folded : fold_constant_op shifter overflow ≡ some one
unfolding fold_constant_op fold_value fold_to_const compute_flag_extract summary_of summary_result
    const_u64_value op_of extract extract_of sign_bit_for_bits truncate_to_type mask_for_bits
overflow-folded = refl

fold_constant_op-exec_op_example :
    exec_op generous computed overflow ≡ exec_op generous computed one
fold_constant_op-exec_op_example =
    fold_constant_op-exec_op generous computed overflow one computed-ConstantsHold
      computed-FlagsHold overflow-verified flags-valid overflow-folded
