-- ===== src/Sound/Transfer.antt =====
-- exec_transfer_args of src/xair.c between the blocks of a verified module.
use xair.Prelude.{
  ℕ, ◌≡◌, refl, sym, ap, subst, ◌∙◌, Bool, true, false, not, Option, none, some, List, [], ◌∷◌,
  arith, ◌==◌, length, get_elem?, All, Bool-cases, inl, inr,
}
use xair.Status.{Error, verify, Result, ret, err, ◌>>=◌, >>=-eq-ret, reject_if, reject_if-eq-ret}
use xair.Ir.Types.{type_equal, eq_of_type_equal}
use xair.Module.Data.{Module, BlockRec, count, valid_value}
use xair.Exec.Fold.{type_at}
use xair.Exec.State.{ExecValue, ExecState, exec_define_value}
use xair.Exec.Op.{Status}
use xair.Exec.Run.{read_all, define_all, define_copies, transfer_to, exec_transfer_args}
use xair.Verify.Blocks.{Marks, value_is_available, verify_args, verify_target, verify_target_args}
use xair.Sound.State.{
  Defined, Typed, Extends, Extends-refl, Extends-trans, Holds, Reads, reads, available-Reads,
  Defines, defines, define-Defines,
}
use xair.Sound.Operation.{Failure, no_memory}
use xair.Sound.Verified.{Verified, VerifiedBlock, params-valid}

-- The block has defined parameters.
pub record Entered (s : ExecState) (block_id : ℕ) : Type 0 where
  pub block : BlockRec
  pub is_block : get_elem? s.module'.blocks.items block_id ≡ some block
  pub params : All (Defined s) block.params.items

-- Copies fit valid parameters in number and in type.
data Fit (m : Module) : List ℕ → List ExecValue → Type 0 where
  fit_none : Fit m [] []
  fit_one :
      {param : ℕ} {params : List ℕ} {copy : ExecValue} {copies : List ExecValue}
      → valid_value m param ≡ true
      → copy.type ≡ type_at m param
      → Fit m params copies
      → Fit m (param ∷ params) (copy ∷ copies)

data FitAll (m : Module) (params : List ℕ) : Result (List ExecValue) → Type 0 where
  fits : {copies : List ExecValue} → Fit m params copies → FitAll m params (ret copies)

args-eq :
    (m : Module) (available : Marks) (param arg : ℕ) (params args : List ℕ)
    → verify_args m available (param ∷ params) (arg ∷ args) ≡ ret tt
    → (value_is_available m available arg ≡ true)
      × (type_at m arg ≡ type_at m param)
      × (verify_args m available params args ≡ ret tt)
unfolding verify_args
args-eq m available param arg params args h =
    let (u, h1, h2) = >>=-eq-ret _ (λ done. verify_args m available params args) h in
    let (e, h3) =
      reject_if-eq-ret (not (value_is_available m available arg)) verify
        (reject_if (not (type_equal (type_at m arg) (type_at m param))) verify) h1 in
    (ground arith, eq_of_type_equal _ _ (reject_eq _ h3), h2)
  where
    reject_eq : (b : Bool) {u : Unit {0}} → reject_if (not b) verify ≡ ret u → b ≡ true
    reject_eq true h = refl
    reject_eq false h = cc

cons-FitAll :
    (m : Module) (param : ℕ) (params : List ℕ) (type : _) (value : Result ExecValue)
    (rest : Result (List ExecValue))
    → valid_value m param ≡ true
    → type ≡ type_at m param
    → Reads type value
    → FitAll m params rest
    → FitAll m (param ∷ params) (value >>= λ v. rest >>= λ vs. ret (v ∷ vs))
cons-FitAll m param params type (ret v) (ret vs) valid same (reads e) (fits f) =
    fits (fit_one valid (e ∙ same) f)
cons-FitAll m param params type (err e) rest valid same r f = elim r [ ]
cons-FitAll m param params type (ret v) (err e) valid same r f = elim f [ ]

read_all-FitAll :
    (s : ExecState) (available : Marks) (params args : List ℕ)
    → Holds available s
    → All (λ param. valid_value s.module' param ≡ true) params
    → length params ≡ length args
    → verify_args s.module' available params args ≡ ret tt
    → FitAll s.module' params (read_all s args)
unfolding read_all
read_all-FitAll s available [] [] h valid n e = fits fit_none
read_all-FitAll s available [] (arg ∷ args) h valid n e = absurd (omega arith)
read_all-FitAll s available (param ∷ params) [] h valid n e = absurd (omega arith)
read_all-FitAll s available (param ∷ params) (arg ∷ args) h valid n e =
    let (a, same, rest) = args-eq s.module' available param arg params args e in
    cons-FitAll s.module' param params _ _ _ valid.0 same (available-Reads s available arg h a)
      (read_all-FitAll s available params args h valid.1 (omega arith) rest)

pub data Moves (s : ExecState) (params : List ℕ) : Status → Type 0 where
  moves :
      {s' : ExecState}
      → Typed s'
      → Extends s s'
      → All (Defined s') params
      → Moves s params (ret tt, s')
  moves_not : {s' : ExecState} {e : Error} → Typed s' → Failure s' e → Moves s params (err e, s')

cons-Moves :
    (s s' : ExecState) (param : ℕ) (params : List ℕ) (r : Status)
    → Extends s s'
    → Defined s' param
    → Moves s' params r
    → Moves s (param ∷ params) r
cons-Moves s s' param params r x d (moves {s' = t} h y ds) =
    moves h (Extends-trans s s' t x y) (y.stays param d, ds)
cons-Moves s s' param params r x d (moves_not h f) = moves_not h f

define_all-Moves :
    (s : ExecState) (params : List ℕ) (copies : List ExecValue)
    → Typed s
    → Fit s.module' params copies
    → Moves s params (define_all s params copies)
unfolding define_all
define_all-Moves s [] [] t fit_none = moves t (Extends-refl s) tt
define_all-Moves s (param ∷ params) (copy ∷ copies) t (fit_one valid e f) =
    go (exec_define_value s param copy) (define-Defines s param copy t valid e) λ s' t' x.
      define_all-Moves s' params copies t' (subst (λ m. Fit m params copies) (sym x.module_same) f)
  where
    go :
        (r : Result ExecState)
        → Defines s param r
        → ((s' : ExecState)
            → Typed s'
            → Extends s s'
            → Moves s' params (define_all s' params copies))
        → Moves s
            (param ∷ params)
            (elim r [ err e ↦ (err e, s) | ret s' ↦ define_all s' params copies ])
    go (ret s') (defines t' x d) k = cons-Moves s s' param params _ x d (k s' t' x)
    go (err e) d k = elim d [ ]
define_all-Moves s [] (copy ∷ copies) t f = elim f [ ]
define_all-Moves s (param ∷ params) [] t f = elim f [ ]

pub data Transfers (s : ExecState) (target : ℕ) : Status → Type 0 where
  transfers :
      {s' : ExecState}
      → Typed s'
      → Extends s s'
      → Entered s' target
      → Transfers s target (ret tt, s')
  transfers_not :
      {s' : ExecState} {e : Error} → Typed s' → Failure s' e → Transfers s target (err e, s')

none_in : (P : ℕ → Type 0) (params : List ℕ) → length params ≡ 0 → All P params
none_in P [] n = tt
none_in P (param ∷ params) n = absurd (omega arith)

copies-Moves :
    (s : ExecState) (params : List ℕ) (r : Result (List ExecValue))
    → Typed s
    → FitAll s.module' params r
    → Moves s params (define_copies s params r)
copies-Moves s params (ret copies) t (fits f) = define_all-Moves s params copies t f
copies-Moves s params (err e) t f = elim f [ ]

module _ (malloc : ℕ → Bool) (s : ExecState) (available : Marks) (h : Holds available s) where
  block-Moves :
      (block_id : ℕ) (block : BlockRec) (args : List ℕ)
      → VerifiedBlock s.module' block_id block
      → (count block.params == length args) ≡ true
      → verify_args s.module' available block.params.items args ≡ ret tt
      → Moves s block.params.items (transfer_to malloc s (some block) args)
  unfolding transfer_to
  block-Moves block_id block args v n e =
      let params = block.params.items in
      rw n (elim (Bool-cases (length args == 0)) [
        | inl z ↦ rw z (moves h.typed (Extends-refl s) (none_in (Defined s) params (ground arith)))
        | inr z ↦ rw z (elim (Bool-cases (malloc (length args))) [
          | inl g ↦ rw g (
              copies-Moves s params _ h.typed (
                read_all-FitAll s available params args h
                  (params-valid s.module' block_id params _ v.entered v.params_ok) (ground arith)
                  e))
          | inr g ↦ rw g (moves_not h.typed no_memory)
        ])
      ])

  moved-Transfers :
      (target : ℕ) (block : BlockRec) (r : Status)
      → get_elem? s.module'.blocks.items target ≡ some block
      → Moves s block.params.items r
      → Transfers s target r
  moved-Transfers target block r at (moves t x d) = transfers t x (record {
    block = block;
    is_block = ap (λ m. get_elem? m.blocks.items target) x.module_same ∙ at;
    params = d;
  })
  moved-Transfers target block r at (moves_not t f) = transfers_not t f

  -- Arguments that the verifier accepts are given to the parameters of the target.
  pub exec_transfer_args-Transfers :
      (target : ℕ) (args : List ℕ)
      → Verified s.module'
      → verify_target_args s.module' available target args ≡ ret tt
      → Transfers s target (exec_transfer_args malloc s target args)
  unfolding exec_transfer_args verify_target_args
  exec_transfer_args-Transfers target args verified e =
      go (get_elem? s.module'.blocks.items target) refl e
    where
      go :
          (o : Option BlockRec)
          → get_elem? s.module'.blocks.items target ≡ o
          → verify_target s.module' available o args ≡ ret tt
          → Transfers s target (transfer_to malloc s o args)
      go none at e = cc
      go (some block) at e =
          let (n, k) =
            reject_if-eq-ret (not (count block.params == length args)) verify
              (verify_args s.module' available block.params.items args) e in
          moved-Transfers target block _ at
            (block-Moves target block args (verified target block at) (ground arith) k)
