-- ===== src/Module/Outcome.antt =====
-- What add_op of src/xair.c does to a module, on every branch: an existing value is returned only for
-- an operation that is recorded as asked, a new one is entered whole, and an error leaves the contents
-- as they were.
use xair.Prelude.{
  ℕ, ◌+◌, ◌-◌, ◌≡◌, refl, ap, ◌∙◌, ◌⊎◌, inl, inr, ◌||◌, not, Option, none, some, List, [], ◌∷◌,
  ◌++◌, arith, ltb, leb, ◌==◌, length, get_elem?, set, take, set-append_last, get_elem?-append_last,
  take-append_last, Bool-cases,
}
use xair.Status.{Error, Result, ret, err, >>=-eq-ret}
use xair.Prelude.Words.{uint32_max}
use xair.Ir.Types.{is_value_type}
use xair.Module.Data.{
  Module, Buffer, ValueRec, OpRec, BlockRec, invalid_id, count, term_kind_code, valid_block,
}
use xair.Module.Grow.{Host, Array, append_to, grow_array}
use xair.Module.Numbering.{
  Key, value_number_hash, value_number_prepare_insert, value_number_grow, value_number_insert,
}
use xair.Module.Build.{
  Step, new_value, appended, add_value, pop_last, set_op, enter_op, new_op, record_op, after_value,
  insert_op, reuse_or_insert, find_or_insert, add_op_in, add_op,
}
use xair.Module.Sharing.{Records, lookup_sound, matches-Records}

-- The contents are the same; capacities, the table and its counters may differ.
pub record Same (m m' : Module) : Type 0 where
  pub values : m'.values.items ≡ m.values.items
  pub ops : m'.ops.items ≡ m.ops.items
  pub blocks : m'.blocks.items ≡ m.blocks.items
  pub term_args : m'.term_args.items ≡ m.term_args.items
  pub frozen : m'.frozen ≡ m.frozen

-- One value, its operation and the operation's place at the end of the block are new.
pub record Added (m : Module) (key : Key) (name : List ℕ) (v : ℕ) (m' : Module) : Type 0 where
  pub index : v ≡ count m.values
  pub values :
      m'.values.items
      ≡ m.values.items ++ record (new_value key.type key.block name v) { op = count m.ops } ∷ []
  pub ops : m'.ops.items ≡ m.ops.items ++ new_op key v ∷ []
  pub block :
      (b : BlockRec) × (ops : Buffer ℕ) × (get_elem? m.blocks.items key.block ≡ some b)
      × (ops.items ≡ b.ops.items ++ count m.ops ∷ [])
      × (m'.blocks.items ≡ set m.blocks.items key.block (record b { ops = ops }))
  pub term_args : m'.term_args.items ≡ m.term_args.items
  pub frozen : m'.frozen ≡ m.frozen

-- A result is an error with the same contents, a recorded operation, or a new one.
abbrev pub Outcome : Module → Key → List ℕ → Step ℕ → Type 0
Outcome m key name (err e, m') = Same m m'
Outcome m key name (ret v, m') = (Same m m' × Records m key v) ⊎ Added m key name v m'

append_to-items :
    {A : Type 0} (host : Host) (array : Array) (b : Buffer A) (x : A) {b' : Buffer A}
    → append_to host array b x ≡ ret b'
    → b'.items ≡ b.items ++ x ∷ []
unfolding append_to
append_to-items host array b x h =
    let (cap, _, e) = >>=-eq-ret (grow_array host array b.cap (count b + 1)) _ h in cc

set_op_last :
    (vs : List ValueRec) (x : ValueRec) (op : ℕ)
    → set_op (vs ++ x ∷ []) (length vs) op ≡ vs ++ record x { op = op } ∷ []
set_op_last vs x op =
    rw (get_elem?-append_last vs x, set_op) (set-append_last vs x (record x { op = op }))

pop_last-append :
    (vs : List ValueRec) (x : ValueRec) (cap : ℕ)
    → (pop_last (record { items = vs ++ x ∷ []; cap = cap })).items ≡ vs
pop_last-append vs x cap = take-append_last vs x

-- Whatever the block's array does, from the state with the new value and operation on.
module _ (m : Module) (key : Key) (name : List ℕ) (b : BlockRec) where
  abbrev entered_values : List ValueRec
  entered_values =
      m.values.items
      ++ record (new_value key.type key.block name (count m.values)) { op = count m.ops } ∷ []

  enter_op-Outcome :
      (m' : Module) (hash : ℕ) (r : Result (Buffer ℕ))
      → get_elem? m.blocks.items key.block ≡ some b
      → ((ops : Buffer ℕ) → r ≡ ret ops → ops.items ≡ b.ops.items ++ count m.ops ∷ [])
      → m'.values.items ≡ entered_values
      → m'.ops.items ≡ m.ops.items ++ new_op key (count m.values) ∷ []
      → m'.blocks.items ≡ m.blocks.items
      → m'.term_args.items ≡ m.term_args.items
      → m'.frozen ≡ m.frozen
      → Outcome m key name (enter_op m' key.block b hash (count m.values) r)
  unfolding value_number_insert
  enter_op-Outcome m' hash (err e) at grown values ops blocks args frozen = record {
    values =
        ap (λ l. take (length l - 1) l)
          (ap (λ l. set_op l (count m.values) invalid_id) values
            ∙ set_op_last m.values.items _ invalid_id)
        ∙ take-append_last m.values.items _;
    ops = ap (λ l. take (length l - 1) l) ops ∙ take-append_last m.ops.items _;
    blocks = blocks;
    term_args = args;
    frozen = frozen;
  }
  enter_op-Outcome m' hash (ret bops) at grown values ops blocks args frozen = inr (record {
    index = refl;
    values = values;
    ops = ops;
    block =
        (b, bops, at, grown bops refl, ap (λ l. set l key.block (record b { ops = bops })) blocks);
    term_args = args;
    frozen = frozen;
  })

  -- From the growth of the array of operations on: `m'` holds the new value only.
  record_op-Outcome :
      (host : Host) (m' : Module) (hash : ℕ) (r : Result (Buffer OpRec))
      → get_elem? m.blocks.items key.block ≡ some b
      → ((ops : Buffer OpRec)
          → r ≡ ret ops
          → ops.items ≡ m'.ops.items ++ new_op key (count m.values) ∷ [])
      → m'.values.items ≡ m.values.items ++ new_value key.type key.block name (count m.values) ∷ []
      → m'.ops.items ≡ m.ops.items
      → m'.blocks.items ≡ m.blocks.items
      → m'.term_args.items ≡ m.term_args.items
      → m'.frozen ≡ m.frozen
      → Outcome m key name (record_op host m' b key hash (count m.values) r)
  record_op-Outcome host m' hash (err e) at grown values ops blocks args frozen = record {
    values = ap (λ l. take (length l - 1) l) values ∙ take-append_last m.values.items _;
    ops = ops;
    blocks = blocks;
    term_args = args;
    frozen = frozen;
  }
  record_op-Outcome host m' hash (ret ops) at grown values same blocks args frozen =
      enter_op-Outcome _ hash _ at
        (λ bops e.
          append_to-items host Array.block_ops b.ops (count m'.ops) e
          ∙ ap (λ l. b.ops.items ++ length l ∷ []) same)
        (ap (λ l. set_op l (count m.values) (count m'.ops)) values
          ∙ set_op_last m.values.items _ (count m'.ops)
          ∙ ap
              (λ l.
                m.values.items
                ++ record (new_value key.type key.block name (count m.values)) { op = length l }
                  ∷ [])
              same)
        (grown ops refl ∙ ap (λ l. l ++ new_op key (count m.values) ∷ []) same) blocks args frozen

  appended-Outcome :
      (host : Host) (m' : Module) (hash : ℕ) (r : Result (Buffer ValueRec))
      → get_elem? m.blocks.items key.block ≡ some b
      → ((values : Buffer ValueRec)
          → r ≡ ret values
          → values.items
            ≡ m'.values.items ++ new_value key.type key.block name (count m'.values) ∷ [])
      → Same m m'
      → Outcome m key name (after_value host b key hash (appended m' r))
  unfolding after_value
  appended-Outcome host m' hash (err e) at grown same = same
  appended-Outcome host m' hash (ret values) at grown same = rw (ap length same.values) (
      record_op-Outcome host _ hash _ at (λ ops e. append_to-items host Array.ops m'.ops _ e)
        (grown values refl
          ∙ ap (λ l. l ++ new_value key.type key.block name (length l) ∷ []) same.values)
        same.ops same.blocks same.term_args same.frozen)

  refused :
      (host : Host) (m' : Module) (hash : ℕ) (e : Error)
      → Same m m'
      → Outcome m key name (after_value host b key hash (err e, m'))
  unfolding after_value
  refused host m' hash e same = same

  after_value-Outcome :
      (host : Host) (m' : Module) (hash : ℕ)
      → get_elem? m.blocks.items key.block ≡ some b
      → Same m m'
      → Outcome m key name (after_value host b key hash (add_value host m' key.block key.type name))
  unfolding add_value
  after_value-Outcome host m' hash at same =
      elim (Bool-cases
        (m'.frozen || (not (valid_block m' key.block) || not (is_value_type key.type)))) [
          | inl e ↦ rw e (refused host m' hash _ same)
          | inr e ↦ rw e (elim (Bool-cases (leb uint32_max (count m'.values))) [
            | inl f ↦ rw f (refused host m' hash _ same)
            | inr f ↦ rw f (
                appended-Outcome host m' hash _ at
                  (λ values g. append_to-items host Array.values m'.values _ g) same)
          ])
        ]

prepare_insert-Same :
    (host : Host) (m : Module) {m' : Module}
    → value_number_prepare_insert host m ≡ ret m'
    → Same m m'
unfolding value_number_prepare_insert value_number_grow
prepare_insert-Same host m h = ground arith

module _ (host : Host) (m : Module) (key : Key) (name : List ℕ) (b : BlockRec) where
  insert_op-Outcome :
      (m' : Module) (hash : ℕ) (r : Result Module)
      → get_elem? m.blocks.items key.block ≡ some b
      → Same m m'
      → ((m'' : Module) → r ≡ ret m'' → Same m m'')
      → Outcome m key name (insert_op host m' b key hash name r)
  unfolding insert_op
  insert_op-Outcome m' hash (err e) at same grown = same
  insert_op-Outcome m' hash (ret m'') at same grown =
      after_value-Outcome m key name b host m'' hash at (grown m'' refl)

  Same-trans : {m1 m2 : Module} → Same m m1 → Same m1 m2 → Same m m2
  Same-trans p q = record {
    values = q.values ∙ p.values;
    ops = q.ops ∙ p.ops;
    blocks = q.blocks ∙ p.blocks;
    term_args = q.term_args ∙ p.term_args;
    frozen = q.frozen ∙ p.frozen;
  }

  reuse_or_insert-Outcome :
      (m' : Module) (hash : ℕ) (o : Option ℕ)
      → get_elem? m.blocks.items key.block ≡ some b
      → Same m m'
      → ((v : ℕ) → o ≡ some v → Records m key v)
      → Outcome m key name (reuse_or_insert host m' b key hash name o)
  unfolding reuse_or_insert
  reuse_or_insert-Outcome m' hash none at same hit =
      insert_op-Outcome m' hash _ at same (λ m'' g. Same-trans same (prepare_insert-Same host m' g))
  reuse_or_insert-Outcome m' hash (some v) at same hit = inl (
    record {
      values = same.values;
      ops = same.ops;
      blocks = same.blocks;
      term_args = same.term_args;
      frozen = same.frozen;
    },
    hit v refl,
  )

  find_or_insert-Outcome :
      get_elem? m.blocks.items key.block ≡ some b
      → Outcome m key name (find_or_insert host m b key name)
  unfolding find_or_insert
  find_or_insert-Outcome at =
      let hash = value_number_hash key in
      reuse_or_insert-Outcome _ hash _ at
        (record { values = refl; ops = refl; blocks = refl; term_args = refl; frozen = refl })
        (λ v e. matches-Records m v key (lookup_sound m key hash v e))

unchanged : (m : Module) → Same m m
unchanged m = record { values = refl; ops = refl; blocks = refl; term_args = refl; frozen = refl }

add_op_in-Outcome :
    (host : Host) (m : Module) (key : Key) (name : List ℕ) (o : Option BlockRec)
    → get_elem? m.blocks.items key.block ≡ o
    → Outcome m key name (add_op_in host m key name o)
unfolding add_op_in
add_op_in-Outcome host m key name none at = unchanged m
add_op_in-Outcome host m key name (some b) at =
    elim (Bool-cases (not (term_kind_code b.term.kind == 0))) [
      | inl e ↦ rw e (unchanged m)
      | inr e ↦ rw e (elim (Bool-cases (leb uint32_max (count m.ops))) [
        | inl f ↦ rw f (unchanged m)
        | inr f ↦ rw f (find_or_insert-Outcome host m key name b at)
      ])
    ]

-- Whatever the arguments, the state and the host: when add_op fails, the values, operations, blocks,
-- terminator arguments and the frozen mark are as they were; when it returns an id, then either these
-- are as they were and the id is that of a value which holds an operation with the same opcode, type,
-- sources, immediate and endianness, in the same block unless it is a constant; or exactly one value
-- and one operation are appended, the id is the new value's, the two point at each other, and the
-- operation stands at the end of its block and nothing else in the contents changes.
pub add_op_lem :
    (host : Host) (m : Module) (key : Key) (name : List ℕ)
    → Outcome m key name (add_op host m key name)
unfolding add_op
add_op_lem host m key name = elim (Bool-cases (m.frozen || ltb 3 (length key.srcs))) [
  | inl e ↦ rw e (unchanged m)
  | inr e ↦ rw e (add_op_in-Outcome host m key name (get_elem? m.blocks.items key.block) refl)
]
