-- ===== src/Sound/Block.antt =====
-- The operations of a verified block in the executor of src/xair.c.
use xair.Prelude.{ℕ, ◌≡◌, refl, sym, subst, ◌∙◌, true, Option, some, List, [], ◌∷◌, get_elem?, set}
use xair.Status.{Error, oom, bad_arg, range, unsupported, verify, ret, err, >>=-eq-ret}
use xair.Ir.Opcode.{Opcode}
use xair.Module.Data.{OpRec}
use xair.Module.Grow.{Host}
use xair.Exec.State.{ExecState}
use xair.Exec.Op.{Status, exec_op}
use xair.Exec.Run.{OpsEnd, finished, stopped, failed, op_end, run_one, and_ops, run_ops}
use xair.Verify.Blocks.{Marks, verify_one, verify_ops}
use xair.Sound.State.{Typed, Extends, Extends-refl, Extends-trans, Holds, extend-Holds, mark-Holds}
use xair.Sound.Operation.{Failure, Step, steps, stops, fails}
use xair.Sound.Step.{exec_op-Step}
use xair.Sound.Verified.{VerifiedOp, one-Verified}

-- The operations run to their end, with the available values defined, or one of them stops or fails.
pub data Runs (available : Marks) (s : ExecState) : OpsEnd × ExecState → Type 0 where
  finishes : {s' : ExecState} → Holds available s' → Extends s s' → Runs available s (finished, s')
  stops_at : {opcode : Opcode} {s' : ExecState} → Typed s' → Runs available s (stopped opcode, s')
  fails_with :
      {e : Error} {s' : ExecState} → Typed s' → Failure s' e → Runs available s (failed e, s')

step-Runs :
    (available : Marks) (s : ExecState) (op : OpRec) (r : Status)
    → Holds available s
    → Step op s r
    → Runs (set available op.dst true) s (op_end op.opcode r)
step-Runs available s op (ret u, s') h (steps t e d) =
    finishes (mark-Holds available s' op.dst (extend-Holds available s s' h t e) d) e
step-Runs available s op (err unsupported, s') h (stops t) = stops_at t
step-Runs available s op (err oom, s') h (fails t f) = fails_with t f
step-Runs available s op (err range, s') h (fails t f) = fails_with t f
step-Runs available s op (err bad_arg, s') h (fails t f) = fails_with t f
step-Runs available s op (err unsupported, s') h (fails t f) = elim f [ ]
step-Runs available s op (err verify, s') h (fails t f) = elim f [ ]

one-Runs :
    (host : Host) (available available' : Marks) (s : ExecState) (index : ℕ) (o : Option OpRec)
    → get_elem? s.module'.ops.items index ≡ o
    → Holds available s
    → VerifiedOp s.module' available available' o
    → Runs available' s (run_one host s o)
one-Runs host available available' s index o at h v =
    subst (λ o. Runs available' s (run_one host s o)) (sym v.is_op)
      (subst (λ a. Runs a s (run_one host s (some v.op))) (sym v.marks)
        (step-Runs available s v.op (exec_op host s v.op) h
          (exec_op-Step host s v.op available h index (at ∙ v.is_op) v.sources_ok v.op_ok)))

later-Runs :
    (available : Marks) (s s' : ExecState) (r : OpsEnd × ExecState)
    → Extends s s'
    → Runs available s' r
    → Runs available s r
later-Runs available s s' r e (finishes {s' = t} h k) = finishes h (Extends-trans s s' t e k)
later-Runs available s s' r e (stops_at t) = stops_at t
later-Runs available s s' r e (fails_with t f) = fails_with t f

pub run_ops-Runs :
    (host : Host) (block_id : ℕ) (ops : List ℕ) (available available' : Marks) (s : ExecState)
    → Holds available s
    → verify_ops s.module' block_id ops available ≡ ret available'
    → Runs available' s (run_ops host ops s)
unfolding verify_ops run_ops
run_ops-Runs host block_id [] available available' s h e =
    subst (λ a. Runs a s (finished, s)) (let same : available ≡ available' = cc in same)
      (finishes h (Extends-refl s))
run_ops-Runs host block_id (i ∷ ops) available available' s h e =
    let (middle, h1, h2) =
      >>=-eq-ret (verify_one s.module' block_id i available (get_elem? s.module'.ops.items i)) _
        e in
    go middle (run_one host s (get_elem? s.module'.ops.items i))
      (one-Runs host available middle s i _ refl h
        (one-Verified s.module' block_id i available middle _ h1))
      λ s' h' x. later-Runs available' s s' _ x (
        run_ops-Runs host block_id ops middle available' s' h'
          (subst (λ m. verify_ops m block_id ops middle ≡ ret available') (sym x.module_same) h2))
  where
    go :
        (middle : Marks) (r : OpsEnd × ExecState)
        → Runs middle s r
        → ((s' : ExecState)
            → Holds middle s'
            → Extends s s'
            → Runs available' s (run_ops host ops s'))
        → Runs available' s (and_ops r λ s'. run_ops host ops s')
    go middle (finished, s') (finishes h x) k = k s' h x
    go middle (stopped opcode, s') (stops_at t) k = stops_at t
    go middle (failed e, s') (fails_with t f) k = fails_with t f
