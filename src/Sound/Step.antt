-- ===== src/Sound/Step.antt =====
-- Every operation that verify_op of src/xair.c accepts, in the executor.
use xair.Prelude.{ℕ, ◌≡◌, true, false, ◌||◌, arith, ◌==◌, length, get_elem?, some}
use xair.Status.{ret}
use xair.Ir.Opcode.{Opcode, opcode_equal}
use xair.Module.Data.{OpRec, valid_value}
use xair.Module.Grow.{Host}
use xair.Exec.Fold.{first_src, second_src}
use xair.Exec.State.{ExecState}
use xair.Exec.Op.{exec_op}
use xair.Verify.{verify_op}
use xair.Verify.Blocks.{Marks, verify_available}
use xair.Sound.Shape.{
  Shape, constant, one, two, loads, stores, verify_op-Shape, first_available, second_available,
}
use xair.Sound.State.{Holds, available-Reads}
use xair.Sound.Operation.{Step, define-Step, unary-Step, binary-Step}
use xair.Sound.Store.{with_read-Step, memory-Step}

module _ (host : Host) (s : ExecState) (op : OpRec) (available : Marks) (h : Holds available s)
    (index : ℕ) (at : get_elem? s.module'.ops.items index ≡ some op) where
  op_of_shape-Step :
      valid_value s.module' op.dst ≡ true
      → verify_available s.module' available op.src ≡ ret tt
      → Shape s.module' op op.opcode
      → Step op s (exec_op host s op)
  unfolding exec_op
  op_of_shape-Step valid v (constant c) = rw c (define-Step s op h.typed valid op.imm)
  op_of_shape-Step valid v (one p n) =
      let a : opcode_equal op.opcode Opcode.const_u64 ≡ false = ground arith in
      let b : (opcode_equal op.opcode Opcode.load || opcode_equal op.opcode Opcode.store) ≡ false =
        ground arith in
      let c : (length op.src == 1) ≡ true = ground arith in
      rw (a, b, c)
        (with_read-Step s op h.typed valid _ _ _
          (available-Reads s available (first_src op) h
            (first_available s.module' available op.src v (omega arith)))
          λ src _ _. unary-Step s op h.typed valid src)
  op_of_shape-Step valid v (two p n) =
      let a : opcode_equal op.opcode Opcode.const_u64 ≡ false = ground arith in
      let b : (opcode_equal op.opcode Opcode.load || opcode_equal op.opcode Opcode.store) ≡ false =
        ground arith in
      let c : (length op.src == 1) ≡ false = ground arith in
      let d : (length op.src == 2) ≡ true = ground arith in
      rw (a, b, c, d)
        (with_read-Step s op h.typed valid _ _ _
          (available-Reads s available (first_src op) h
            (first_available s.module' available op.src v (omega arith)))
          λ lhs _ _.
            with_read-Step s op h.typed valid _ _ _
              (available-Reads s available (second_src op) h
                (second_available s.module' available op.src v (omega arith)))
              λ rhs _ _. binary-Step s op h.typed valid lhs rhs)
  op_of_shape-Step valid v (loads o n k) =
      let a : opcode_equal op.opcode Opcode.const_u64 ≡ false = ground arith in
      let b : (opcode_equal op.opcode Opcode.load || opcode_equal op.opcode Opcode.store) ≡ true =
        ground arith in
      rw (a, b)
        (memory-Step s op h.typed valid host available h v (loads o n k)
          (record { index = index; is_op = at; accesses = b }) (omega arith))
  op_of_shape-Step valid v (stores o n k) =
      let a : opcode_equal op.opcode Opcode.const_u64 ≡ false = ground arith in
      let b : (opcode_equal op.opcode Opcode.load || opcode_equal op.opcode Opcode.store) ≡ true =
        ground arith in
      rw (a, b)
        (memory-Step s op h.typed valid host available h v (stores o n k)
          (record { index = index; is_op = at; accesses = b }) (omega arith))

  -- An accepted operation whose sources are available defines its destination, or stops, or fails for one
  -- of the reasons of `Failure`.
  pub exec_op-Step :
      verify_available s.module' available op.src ≡ ret tt
      → verify_op s.module' op ≡ ret tt
      → Step op s (exec_op host s op)
  exec_op-Step v e =
      let (valid, shape) = verify_op-Shape s.module' op e in op_of_shape-Step valid v shape
