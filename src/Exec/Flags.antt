-- ===== src/Exec/Flags.antt =====
-- The packed flag summaries of the executor, of src/xair.c.
use xair.Prelude.{ℕ, ◌-◌, Bool, true, false, ◌&&◌, not, bit_and, bit_or, bit_xor, ltb, ◌==◌}
use xair.Prelude.Words.{add64, sub64, shl64, shr}
use xair.Ir.Opcode.{Opcode, flags_add, opcode_equal}
use xair.Exec.Scalar.{mask_for_bits, sign_bit_for_bits, even_parity8, is_set, differ}

-- XAIR_EXEC_FLAG_ZF to XAIR_EXEC_FLAG_AF
abbrev pub exec_zf : ℕ
exec_zf = 1

abbrev pub exec_cf : ℕ
exec_cf = 2

abbrev pub exec_of : ℕ
exec_of = 4

abbrev pub exec_sf : ℕ
exec_sf = 8

abbrev pub exec_pf : ℕ
exec_pf = 16

abbrev pub exec_af : ℕ
exec_af = 32

-- `if (b) packed |= flag;`
abbrev pub or_if : Bool → (flag packed : ℕ) → ℕ
or_if true flag packed = bit_or packed flag
or_if false flag packed = packed

unfoldable pub exec_logic_flags : (result bits : ℕ) → ℕ
exec_logic_flags result bits =
    let r = bit_and result (mask_for_bits bits) in
    let zf = or_if (r == 0) exec_zf 0 in
    let sf = or_if (is_set r (sign_bit_for_bits bits)) exec_sf zf in
    or_if (even_parity8 r) exec_pf sf

abbrev pub flags_result : Bool → (lhs rhs mask : ℕ) → ℕ
flags_result true lhs rhs mask = bit_and (add64 lhs rhs) mask
flags_result false lhs rhs mask = bit_and (sub64 lhs rhs) mask

abbrev pub carry_of : Bool → (lhs rhs result : ℕ) → Bool
carry_of true lhs rhs result = ltb result lhs
carry_of false lhs rhs result = ltb lhs rhs

abbrev pub overflow_of : Bool → (lhs_sign rhs_sign result_sign : Bool) → Bool
overflow_of true l r s = not (differ l r) && differ s l
overflow_of false l r s = differ l r && differ s l

unfoldable pub exec_flags : Opcode → (lhs rhs bits : ℕ) → ℕ
exec_flags opcode lhs rhs bits =
    let mask = mask_for_bits bits in
    let sign = sign_bit_for_bits bits in
    let l = bit_and lhs mask in
    let r = bit_and rhs mask in
    let adds = opcode_equal opcode flags_add in
    let result = flags_result adds l r mask in
    let zf = or_if (result == 0) exec_zf 0 in
    let cf = or_if (carry_of adds l r result) exec_cf zf in
    let of =
      or_if (overflow_of adds (is_set l sign) (is_set r sign) (is_set result sign)) exec_of cf in
    let sf = or_if (is_set result sign) exec_sf of in
    let pf = or_if (even_parity8 result) exec_pf sf in
    or_if (is_set (bit_xor (bit_xor l r) result) 0x10) exec_af pf

-- For a shift from 1 to `bits - 1`, which the callers check.
unfoldable pub exec_shift_left_flags : (lhs shift bits : ℕ) → ℕ
exec_shift_left_flags lhs shift bits =
    let mask = mask_for_bits bits in
    let sign = sign_bit_for_bits bits in
    let l = bit_and lhs mask in
    let result = bit_and (shl64 l shift) mask in
    let cf = bit_and (shr l (bits - shift)) 1 in
    let zf = or_if (result == 0) exec_zf 0 in
    let sf = or_if (is_set result sign) exec_sf zf in
    let pf = or_if (even_parity8 result) exec_pf sf in
    let packed = or_if (not (cf == 0)) exec_cf pf in
    or_if (shift == 1 && differ (is_set result sign) (not (cf == 0))) exec_of packed
