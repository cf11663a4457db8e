-- ===== src/Module/Metrics.antt =====
-- xair_get_module_metrics and xair_module_fingerprint of src/xair.c.
use xair.Prelude.{ℕ, ◌+◌, List, [], ◌∷◌, length, take, drop}
use xair.Ir.Opcode.{opcode_code}
use xair.Module.Data.{
  endian_code, Module, ValueRec, OpRec, BlockRec, TermRec, TermKind, term_kind_code, count,
}
use xair.Module.Numbering.{hash_mix_u64, hash_type, hash_all}

pub record Metrics : Type 0 where
  pub blocks : ℕ
  pub values : ℕ
  pub operations : ℕ
  pub block_parameters : ℕ
  pub terminator_arguments : ℕ

abbrev pub params_of : List BlockRec → ℕ
params_of [] = 0
params_of (block ∷ blocks) = count block.params + params_of blocks

abbrev pub term_arg_count : TermRec → TermKind → ℕ
term_arg_count term TermKind.jump = term.true_arg_count
term_arg_count term TermKind.return = term.true_arg_count
term_arg_count term TermKind.cbranch = term.true_arg_count + term.false_arg_count + 1
term_arg_count term _ = 0

abbrev pub term_args_of : List BlockRec → ℕ
term_args_of [] = 0
term_args_of (block ∷ blocks) = term_arg_count block.term block.term.kind + term_args_of blocks

unfoldable pub get_module_metrics : Module → Metrics
get_module_metrics m = record {
  blocks = count m.blocks;
  values = count m.values;
  operations = count m.ops;
  block_parameters = params_of m.blocks.items;
  terminator_arguments = term_args_of m.blocks.items;
}

abbrev pub fingerprint_value : (hash i : ℕ) → ValueRec → ℕ
fingerprint_value hash i v =
    hash_mix_u64 (hash_mix_u64 (hash_type (hash_mix_u64 hash i) v.type) v.block) v.op

unfoldable pub fingerprint_values : (hash i : ℕ) → List ValueRec → ℕ
fingerprint_values hash i [] = hash
fingerprint_values hash i (v ∷ values) =
    fingerprint_values (fingerprint_value hash i v) (i + 1) values

-- A count, and then each of the ids.
abbrev pub hash_counted : ℕ → List ℕ → ℕ
hash_counted hash ids = hash_all (hash_mix_u64 hash (length ids)) ids

abbrev pub fingerprint_op : (hash i : ℕ) → OpRec → ℕ
fingerprint_op hash i op =
    hash_mix_u64
      (hash_mix_u64
        (hash_counted
          (hash_mix_u64 (hash_mix_u64 (hash_mix_u64 hash i) (opcode_code op.opcode)) op.dst) op.src)
        (endian_code op.endian))
      op.imm

unfoldable pub fingerprint_ops : (hash i : ℕ) → List OpRec → ℕ
fingerprint_ops hash i [] = hash
fingerprint_ops hash i (op ∷ ops) = fingerprint_ops (fingerprint_op hash i op) (i + 1) ops

-- The arguments of one target: their count, and the slice of the shared array.
abbrev pub hash_args : ℕ → List ℕ → (offset arg_count : ℕ) → ℕ
hash_args hash args offset arg_count =
    hash_all (hash_mix_u64 hash arg_count) (take arg_count (drop offset args))

abbrev pub fingerprint_term : ℕ → List ℕ → TermRec → ℕ
fingerprint_term hash args term =
    let head =
      hash_mix_u64
        (hash_mix_u64 (hash_mix_u64 (hash_mix_u64 hash (term_kind_code term.kind)) term.condition)
          term.true_target)
        term.false_target in
    hash_mix_u64
      (hash_args (hash_args head args term.true_arg_offset term.true_arg_count) args
        term.false_arg_offset term.false_arg_count)
      term.code

abbrev pub fingerprint_block : (hash i : ℕ) → List ℕ → BlockRec → ℕ
fingerprint_block hash i args block =
    fingerprint_term
      (hash_counted (hash_counted (hash_mix_u64 hash i) block.params.items) block.ops.items) args
      block.term

unfoldable pub fingerprint_blocks : (hash i : ℕ) → List ℕ → List BlockRec → ℕ
fingerprint_blocks hash i args [] = hash
fingerprint_blocks hash i args (block ∷ blocks) =
    fingerprint_blocks (fingerprint_block hash i args block) (i + 1) args blocks

abbrev pub fingerprint_seed : ℕ
fingerprint_seed = 0x5841_4952_5f76_305f

unfoldable pub module_fingerprint : Module → ℕ
module_fingerprint m =
    let counted =
      hash_mix_u64 (hash_mix_u64 (hash_mix_u64 fingerprint_seed (count m.blocks)) (count m.values))
        (count m.ops) in
    fingerprint_blocks (fingerprint_ops (fingerprint_values counted 0 m.values.items) 0 m.ops.items)
      0 m.term_args.items m.blocks.items
