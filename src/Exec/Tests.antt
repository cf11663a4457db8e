-- ===== src/Exec/Tests.antt =====
-- The theorems of the executor of src/xair.c at a module with two blocks, the first of which adds two
-- constants and jumps to the second with the sum.
use xair.Prelude.{
  get_elem?, ◌-◌, if◌then◌else◌, ℕ, ◌+◌, ◌≡◌, refl, arith, true, some, List, [], ◌∷◌,
}
use xair.Status.{ret}
use xair.Ir.Types.{type_i}
use xair.Ir.Opcode.{Opcode}
use xair.Module.Data.{BlockRec, Endian, Module, OpRec, ValueRec, TermKind, invalid_id, new_module}
use xair.Module.Grow.{Host, grow_cap, grow_array}
use xair.Module.Build.{new_block}
use xair.Exec.Slices.{set_cbranch-args}
use xair.Module.Terms.{append_term_args, set_term, set_cbranch, term_of, with_true_args}
use xair.Exec.Scalar.{mask_for_bits, truncate_to_type}
use xair.Exec.Fold.{const_u64_value, op_of}
use xair.Exec.State.{exec_read_value, ExecState, new_state}
use xair.Exec.Memory.{
  exec_store_bytes, exec_load_bytes, store_from, store_byte, with_page, exec_get_or_create_page,
  exec_find_page, update_page, load_byte,
}
use xair.Exec.Run.{true_args, false_args, exec_run}
use xair.Exec.Resume.{resume, exec_run-resume}
use xair.Exec.Agree.Constants.{new_state-reads_constant}
use xair.Exec.Bytes.{outside, store_bytes-load_bytes}

abbrev pub generous : Host
generous = record { size_of = λ _. 16; realloc = λ _ _. true }

abbrev pub value_of : (block op : ℕ) → ValueRec
value_of block op = record { type = type_i 8; block = block; op = op; name = b'v' ∷ [] }

abbrev pub op_rec : Opcode → (dst : ℕ) → List ℕ → (imm : ℕ) → OpRec
op_rec opcode dst src imm = record {
  opcode = opcode;
  dst = dst;
  src = src;
  endian = Endian.le;
  imm = imm;
}

abbrev sum : OpRec
sum = op_rec Opcode.add 2 (0 ∷ 1 ∷ []) 0

abbrev adder : Module
adder = record new_module {
  values = record {
    items = value_of 0 0 ∷ value_of 0 1 ∷ value_of 0 2 ∷ value_of 1 invalid_id ∷ [];
    cap = 8;
  };
  ops = record {
    items = op_rec Opcode.const_u64 0 [] 250 ∷ op_rec Opcode.const_u64 1 [] 7 ∷ sum ∷ [];
    cap = 8;
  };
  blocks = record {
    items =
        record (new_block [] 0) {
          ops = record { items = 0 ∷ 1 ∷ 2 ∷ []; cap = 8 };
          term = with_true_args (term_of TermKind.jump invalid_id 1 invalid_id 0) 0 1;
        }
        ∷ record (new_block [] 1) {
          params = record { items = 3 ∷ []; cap = 8 };
          term = with_true_args (term_of TermKind.return invalid_id invalid_id invalid_id 0) 1 1;
        }
        ∷ [];
    cap = 8;
  };
  term_args = record { items = 2 ∷ 3 ∷ []; cap = 8 };
}

abbrev start : ExecState
start = new_state adder

exec_run-resume_example :
    exec_run generous (λ _. true) 0 start (1 + 4)
    ≡ resume generous (λ _. true) 4 (exec_run generous (λ _. true) 0 start 1)
exec_run-resume_example = exec_run-resume generous (λ _. true) 0 start 1 4

lhs-constant : const_u64_value adder 0 ≡ some 250
unfolding const_u64_value op_of truncate_to_type mask_for_bits
lhs-constant = refl

new_state-reads_constant_example :
    exec_read_value start 0 ≡ ret (record { type = type_i 8; lo = 250; hi = 0 })
new_state-reads_constant_example = new_state-reads_constant adder 0 250 lhs-constant

-- Two bytes over the end of a page.
abbrev stored : ExecState
stored = (exec_store_bytes generous start 0 0xfff (0xaa ∷ 0xbb ∷ [])).1

stores : exec_store_bytes generous start 0 0xfff (0xaa ∷ 0xbb ∷ []) ≡ (ret tt, stored)
unfolding exec_store_bytes store_from store_byte exec_get_or_create_page with_page exec_find_page
    grow_array grow_cap update_page
stores = refl

store_bytes-load_bytes_example :
    (exec_load_bytes stored 0 0xfff 2 ≡ ret (0xaa ∷ 0xbb ∷ []))
    × ((space address : ℕ)
        → load_byte stored space address ≡ (
            if outside 0 0xfff 2 space address
            then load_byte start space address
            else get_elem? (0xaa ∷ 0xbb ∷ []) (address - 0xfff)))
store_bytes-load_bytes_example =
    store_bytes-load_bytes generous start stored 0 0xfff (0xaa ∷ 0xbb ∷ []) (omega arith) stores

-- The same blocks with no terminators yet; the first branches on the sum.
abbrev open_adder : Module
open_adder = record adder {
  blocks = record {
    items =
        new_block [] 0
        ∷ record (new_block [] 1) { params = record { items = 3 ∷ []; cap = 8 } }
        ∷ [];
    cap = 8;
  };
}

abbrev branched : Module
branched = (set_cbranch generous open_adder 0 2 1 (0 ∷ []) 1 (1 ∷ [])).1

branches : set_cbranch generous open_adder 0 2 1 (0 ∷ []) 1 (1 ∷ []) ≡ (ret tt, branched)
unfolding set_cbranch append_term_args set_term grow_array grow_cap
branches = refl

set_cbranch-args_example :
    (b : BlockRec) × (get_elem? branched.blocks.items 0 ≡ some b)
    × (b.term.kind ≡ TermKind.cbranch)
    × (b.term.condition ≡ 2)
    × (b.term.true_target ≡ 1)
    × (b.term.false_target ≡ 1)
    × (true_args branched b.term ≡ 0 ∷ [])
    × (false_args branched b.term ≡ 1 ∷ [])
set_cbranch-args_example =
    set_cbranch-args generous open_adder branched 0 2 1 (0 ∷ []) 1 (1 ∷ []) branches
