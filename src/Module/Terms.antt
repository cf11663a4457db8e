-- ===== src/Module/Terms.antt =====
-- Terminators, of src/xair.c: xair_set_jump and the others, over the shared array of arguments.
use xair.Prelude.{
  ℕ, ◌||◌, not, Option, none, some, List, ◌++◌, ◌==◌, length, get_elem?, if◌then◌else◌,
}
use xair.Prelude.Words.{add64}
use xair.Status.{bad_arg, Result, ret, err}
use xair.Module.Data.{
  Module, BlockRec, TermRec, TermKind, invalid_id, count, valid_block, valid_value,
}
use xair.Module.Grow.{Host, Array, grow_array}
use xair.Module.Build.{Step, set_block, is_open}

abbrev pub extend : Module → List ℕ → Result ℕ → Step ℕ
extend m args (err e) = (err e, m)
extend m args (ret cap) = (
  ret (count m.term_args),
  record m { term_args = record { items = m.term_args.items ++ args; cap = cap } },
)

-- The offset of the arguments in the shared array.
unfoldable pub append_term_args : Host → Module → (args : List ℕ) → Step ℕ
append_term_args host m args =
    if length args == 0
    then (ret (count m.term_args), m)
    else extend m args
        (grow_array host Array.term_args m.term_args.cap (add64 (count m.term_args) (length args)))

abbrev pub put_term : Module → (block : ℕ) → TermRec → Option BlockRec → Step (Unit {0})
put_term m block term none = (err bad_arg, m)
put_term m block term (some b) = (ret tt, set_block m block (record b { term = term }))

unfoldable pub set_term : Module → (block : ℕ) → TermRec → Step (Unit {0})
set_term m block term =
    if m.frozen || not (is_open m block)
    then (err bad_arg, m)
    else put_term m block term (get_elem? m.blocks.items block)

-- The fields that memset leaves 0, and those that each setter fills in.
abbrev pub term_of : TermKind → (condition true_target false_target code : ℕ) → TermRec
term_of kind condition true_target false_target code = record {
  kind = kind;
  condition = condition;
  true_target = true_target;
  false_target = false_target;
  true_arg_offset = 0;
  true_arg_count = 0;
  false_arg_offset = 0;
  false_arg_count = 0;
  code = code;
}

abbrev pub with_true_args : TermRec → (offset arg_count : ℕ) → TermRec
with_true_args term offset arg_count = record term {
  true_arg_offset = offset;
  true_arg_count = arg_count;
}

abbrev pub with_false_args : TermRec → (offset arg_count : ℕ) → TermRec
with_false_args term offset arg_count = record term {
  false_arg_offset = offset;
  false_arg_count = arg_count;
}

abbrev pub after_args : {A : Type 0} → Step ℕ → (ℕ → Module → Step A) → Step A
after_args (err e, m) k = (err e, m)
after_args (ret offset, m) k = k offset m

module _ (host : Host) (m : Module) (block : ℕ) where
  unfoldable pub set_jump : (target : ℕ) → (args : List ℕ) → Step (Unit {0})
  set_jump target args =
      if m.frozen || (not (is_open m block) || not (valid_block m target))
      then (err bad_arg, m)
      else after_args (append_term_args host m args) λ offset m'.
        set_term m' block (
          with_true_args (term_of TermKind.jump invalid_id target invalid_id 0) offset
            (length args))

  unfoldable pub set_cbranch :
      (condition true_target : ℕ) (true_args : List ℕ) (false_target : ℕ) (false_args : List ℕ)
      → Step (Unit {0})
  set_cbranch condition true_target true_args false_target false_args =
      if m.frozen
        || (not (is_open m block)
            || (not (valid_value m condition)
                || (not (valid_block m true_target) || not (valid_block m false_target))))
      then (err bad_arg, m)
      else after_args (append_term_args host m true_args) λ true_offset m'.
        after_args (append_term_args host m' false_args) λ false_offset m''. set_term m'' block (
          with_false_args
            (with_true_args (term_of TermKind.cbranch condition true_target false_target 0)
              true_offset (length true_args))
            false_offset (length false_args))

  unfoldable pub set_return : (values : List ℕ) → Step (Unit {0})
  set_return values =
      if m.frozen || not (is_open m block)
      then (err bad_arg, m)
      else after_args (append_term_args host m values) λ offset m'. set_term m' block (
          with_true_args (term_of TermKind.return invalid_id invalid_id invalid_id 0) offset
            (length values))

unfoldable pub set_trap : Module → (block code : ℕ) → Step (Unit {0})
set_trap m block code =
    set_term m block (term_of TermKind.trap invalid_id invalid_id invalid_id code)

unfoldable pub set_fault : Module → (block code : ℕ) → Step (Unit {0})
set_fault m block code =
    set_term m block (term_of TermKind.fault invalid_id invalid_id invalid_id code)
