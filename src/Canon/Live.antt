-- ===== src/Canon/Live.antt =====
-- mark_live_value and mark_term_live_values of src/xair.c: the values that parameters and terminators
-- need.
use xair.Prelude.{
  ℕ, zero, suc, ◌+◌, true, false, ◌||◌, not, Option, none, some, List, [], ◌∷◌, ◌==◌, length,
  get_elem?, set, replicate, ◌++◌, if◌then◌else◌,
}
use xair.Module.Data.{
  Module, ValueRec, OpRec, BlockRec, TermRec, TermKind, count, valid_value, invalid_id,
}
use xair.Exec.Run.{true_args, false_args}
use xair.Verify.Blocks.{Marks, is_marked}

abbrev pub srcs_of : Option OpRec → List ℕ
srcs_of none = []
srcs_of (some op) = op.src

abbrev pub srcs_of_value : Module → Option ValueRec → List ℕ
srcs_of_value m none = []
srcs_of_value m (some v) = if v.op == invalid_id then [] else srcs_of (get_elem? m.ops.items v.op)

-- The sources of the operation that defines a value, if one does.
abbrev pub uses : Module → (value : ℕ) → List ℕ
uses m value = srcs_of_value m (get_elem? m.values.items value)

abbrev pub mark_each : (Marks → ℕ → Marks) → Marks → List ℕ → Marks
mark_each mark live [] = live
mark_each mark live (value ∷ values) = mark_each mark (mark live value) values

-- The recursion goes one value deeper only after a mark, so one more than the marks is depth enough.
unfoldable pub mark_live_value : (fuel : ℕ) → Module → Marks → (value : ℕ) → Marks
mark_live_value zero m live value = live
mark_live_value (suc fuel) m live value =
    let mark_sources =
      mark_each (λ live value. mark_live_value fuel m live value) (set live value true)
        (uses m value) in
    if not (valid_value m value) || is_marked live value then live else mark_sources

abbrev pub mark_live : Module → Marks → ℕ → Marks
mark_live m live value = mark_live_value (length live + 1) m live value

abbrev pub term_uses : Module → TermRec → TermKind → List ℕ
term_uses m term TermKind.jump = true_args m term
term_uses m term TermKind.return = true_args m term
term_uses m term TermKind.cbranch = term.condition ∷ (true_args m term ++ false_args m term)
term_uses m term _ = []

unfoldable pub mark_term_live_values : Module → BlockRec → Marks → Marks
mark_term_live_values m block live =
    mark_each (mark_live m) live (term_uses m block.term block.term.kind)

-- The loop of eliminate_dead_values.
unfoldable pub mark_blocks : Module → Marks → List BlockRec → Marks
mark_blocks m live [] = live
mark_blocks m live (block ∷ blocks) =
    mark_blocks m (mark_term_live_values m block (mark_each (mark_live m) live block.params.items))
      blocks

abbrev pub live_values : Module → Marks
live_values m =
    mark_blocks m (replicate (if count m.values == 0 then 1 else count m.values) false)
      m.blocks.items
