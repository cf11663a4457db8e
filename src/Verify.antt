-- ===== src/Verify.antt =====
-- verify_binary_op, verify_unary_op, verify_memory_op and verify_op of src/xair.c. A refusal is the
-- error `verify`; its message and its place are left out.
pub mod Blocks
use xair.Prelude.{ℕ, ◌+◌, ◌%◌, Bool, false, ◌&&◌, ◌||◌, not, leb, ltb, ◌==◌, length, if◌then◌else◌}
use xair.Status.{verify, Result, err, ◌>>◌, reject_if}
use xair.Ir.Types.{IrType, type_equal, is_int, is_addr, is_mem, is_flags, is_i1, is_value_type}
use xair.Ir.Opcode.{Opcode, opcode_equal}
use xair.Module.Data.{Module, OpRec, count}
use xair.Exec.Fold.{type_at, first_src, second_src}
use xair.Exec.Op.{third_of}

-- What a binary operation wants of its operands' types and its result's.
unfoldable pub binary_types_fit : Opcode → (out lhs rhs : IrType) → Bool
binary_types_fit Opcode.add out lhs rhs = type_equal lhs rhs && (is_int lhs && type_equal out lhs)
binary_types_fit Opcode.sub out lhs rhs = type_equal lhs rhs && (is_int lhs && type_equal out lhs)
binary_types_fit Opcode.mul out lhs rhs = type_equal lhs rhs && (is_int lhs && type_equal out lhs)
binary_types_fit Opcode.and out lhs rhs = type_equal lhs rhs && (is_int lhs && type_equal out lhs)
binary_types_fit Opcode.or out lhs rhs = type_equal lhs rhs && (is_int lhs && type_equal out lhs)
binary_types_fit Opcode.xor out lhs rhs = type_equal lhs rhs && (is_int lhs && type_equal out lhs)
binary_types_fit Opcode.shl out lhs rhs = is_int lhs && (is_int rhs && type_equal out lhs)
binary_types_fit Opcode.lshr out lhs rhs = is_int lhs && (is_int rhs && type_equal out lhs)
binary_types_fit Opcode.ashr out lhs rhs = is_int lhs && (is_int rhs && type_equal out lhs)
binary_types_fit Opcode.eq out lhs rhs =
    type_equal lhs rhs && ((is_int lhs || is_addr lhs) && is_i1 out)
binary_types_fit Opcode.ne out lhs rhs =
    type_equal lhs rhs && ((is_int lhs || is_addr lhs) && is_i1 out)
binary_types_fit Opcode.ult out lhs rhs =
    type_equal lhs rhs && ((is_int lhs || is_addr lhs) && is_i1 out)
binary_types_fit Opcode.ule out lhs rhs =
    type_equal lhs rhs && ((is_int lhs || is_addr lhs) && is_i1 out)
binary_types_fit Opcode.slt out lhs rhs = type_equal lhs rhs && (is_int lhs && is_i1 out)
binary_types_fit Opcode.sle out lhs rhs = type_equal lhs rhs && (is_int lhs && is_i1 out)
binary_types_fit Opcode.concat out lhs rhs =
    is_int lhs && (is_int rhs && (is_int out && out.bits == (lhs.bits + rhs.bits) % 65536))
binary_types_fit Opcode.addr_add out lhs rhs =
    is_addr lhs && (is_int rhs && (lhs.bits == rhs.bits && type_equal out lhs))
binary_types_fit Opcode.addr_sub out lhs rhs =
    is_addr lhs && (is_int rhs && (lhs.bits == rhs.bits && type_equal out lhs))
binary_types_fit Opcode.flags_add out lhs rhs = type_equal lhs rhs && (is_int lhs && is_flags out)
binary_types_fit Opcode.flags_sub out lhs rhs = type_equal lhs rhs && (is_int lhs && is_flags out)
binary_types_fit Opcode.flags_shl out lhs rhs = type_equal lhs rhs && (is_int lhs && is_flags out)
binary_types_fit _ out lhs rhs = false

unfoldable pub unary_types_fit : Opcode → (out src : IrType) → Bool
unary_types_fit Opcode.zext out src = is_int src && (is_int out && ltb src.bits out.bits)
unary_types_fit Opcode.sext out src = is_int src && (is_int out && ltb src.bits out.bits)
unary_types_fit Opcode.trunc out src = is_int src && (is_int out && ltb out.bits src.bits)
unary_types_fit Opcode.int_to_addr out src = is_int src && (is_addr out && src.bits == out.bits)
unary_types_fit Opcode.addr_to_int out src = is_addr src && (is_int out && src.bits == out.bits)
unary_types_fit Opcode.flags_logic out src = is_int src && is_flags out
unary_types_fit Opcode.flag_zf out src = is_flags src && is_i1 out
unary_types_fit Opcode.flag_cf out src = is_flags src && is_i1 out
unary_types_fit Opcode.flag_of out src = is_flags src && is_i1 out
unary_types_fit Opcode.flag_sf out src = is_flags src && is_i1 out
unary_types_fit Opcode.flag_pf out src = is_flags src && is_i1 out
unary_types_fit Opcode.flag_af out src = is_flags src && is_i1 out
unary_types_fit _ out src = false

module _ (m : Module) (op : OpRec) where
  unfoldable pub verify_binary_op : Result (Unit {0})
  verify_binary_op =
      reject_if
        (not (
          binary_types_fit op.opcode (type_at m op.dst) (type_at m (first_src op))
            (type_at m (second_src op))))
        verify

  unfoldable pub verify_unary_op : Result (Unit {0})
  verify_unary_op =
      reject_if (not (unary_types_fit op.opcode (type_at m op.dst) (type_at m (first_src op))))
        verify

  -- The endianness of the model is one of the two.
  unfoldable pub verify_memory_op : Result (Unit {0})
  verify_memory_op = do
    let out = type_at m op.dst
    let mem = type_at m (first_src op)
    let addr = type_at m (second_src op)
    let data_type = type_at m (third_of op.src)
    reject_if (not (is_mem mem) || (not (is_addr addr) || not (mem.bits == addr.bits))) verify
    if opcode_equal op.opcode Opcode.load
        then reject_if (not (is_value_type out) || is_mem out) verify
        else if opcode_equal op.opcode Opcode.store
        then reject_if
            (not (type_equal out mem) || (not (is_value_type data_type) || is_mem data_type)) verify
        else err verify

  abbrev pub with_sources : ℕ → Result (Unit {0}) → Result (Unit {0})
  with_sources n rest = reject_if (not (length op.src == n)) verify >> rest

  -- The cases of the switch of verify_op.
  unfoldable pub verify_sources : Opcode → Result (Unit {0})
  verify_sources Opcode.const_u64 =
      let out = type_at m op.dst in
      reject_if (not (length op.src == 0) || not ((is_int out || is_addr out) && leb out.bits 64))
        verify
  verify_sources Opcode.zext = with_sources 1 verify_unary_op
  verify_sources Opcode.sext = with_sources 1 verify_unary_op
  verify_sources Opcode.trunc = with_sources 1 verify_unary_op
  verify_sources Opcode.int_to_addr = with_sources 1 verify_unary_op
  verify_sources Opcode.addr_to_int = with_sources 1 verify_unary_op
  verify_sources Opcode.flags_logic = with_sources 1 verify_unary_op
  verify_sources Opcode.flag_zf = with_sources 1 verify_unary_op
  verify_sources Opcode.flag_cf = with_sources 1 verify_unary_op
  verify_sources Opcode.flag_of = with_sources 1 verify_unary_op
  verify_sources Opcode.flag_sf = with_sources 1 verify_unary_op
  verify_sources Opcode.flag_pf = with_sources 1 verify_unary_op
  verify_sources Opcode.flag_af = with_sources 1 verify_unary_op
  verify_sources Opcode.load = with_sources 2 verify_memory_op
  verify_sources Opcode.store = with_sources 3 verify_memory_op
  verify_sources _ = with_sources 2 verify_binary_op

  unfoldable pub verify_op : Result (Unit {0})
  verify_op = do
    reject_if (leb (count m.values) op.dst) verify
    reject_if (not (is_value_type (type_at m op.dst))) verify
    verify_sources op.opcode
