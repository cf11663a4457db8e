-- ===== src/Module/Grow.antt =====
-- grow_array, shrink_array and the appends to a block's arrays, of src/xair.c. The sizes of the
-- records and the outcome of each realloc are the host's, a parameter.
use xair.Prelude.{
  ℕ, zero, suc, ◌+◌, ◌*◌, ◌/◌, Bool, true, false, ◌&&◌, not, [], ◌∷◌, ◌++◌, ltb, leb, ◌==◌, take,
  if◌then◌else◌,
}
use xair.Prelude.Words.{size_max}
use xair.Status.{oom, Result, ret, err, ◌>>=◌, ◌>>◌, reject_if}
use xair.Module.Data.{Buffer, count}

-- The arrays that grow.
pub data Array : Type 0 where
  values ops blocks params block_ops term_args slots pages : Array

pub record Host : Type 0 where
  pub size_of : Array → ℕ
  pub realloc : Array → ℕ → Bool

-- `while (next_cap < need)`. The capacity at least doubles in each round, so `need` rounds do.
unfoldable pub grow_cap : (fuel next_cap need : ℕ) → Result ℕ
grow_cap zero next_cap need = ret next_cap
grow_cap (suc fuel) next_cap need = elim (ltb next_cap need) [
  | false ↦ ret next_cap
  | true ↦ if ltb (size_max / 2) next_cap then err oom else grow_cap fuel (next_cap * 2) need
]

-- The new capacity.
unfoldable pub grow_array : Host → Array → (cap need : ℕ) → Result ℕ
grow_array host array cap need = if leb need cap then ret cap else do
  next_cap ← grow_cap need (if cap == 0 then 8 else cap) need
  reject_if (not (host.size_of array == 0) && ltb (size_max / host.size_of array) next_cap) oom
  reject_if (not (host.realloc array (next_cap * host.size_of array))) oom
  ret next_cap

-- The new capacity: `count`, or 0 for an array that is freed.
unfoldable pub shrink_array : Host → Array → (cap count : ℕ) → Result ℕ
shrink_array host array cap count =
    if count == 0 then ret 0 else if cap == count then ret cap else do
      reject_if (not (host.size_of array == 0) && ltb (size_max / host.size_of array) count) oom
      reject_if (not (host.realloc array (count * host.size_of array))) oom
      ret count

-- Growth by one element and its append; append_param and append_op are this at a block's arrays.
unfoldable pub append_to : {A : Type 0} → Host → Array → Buffer A → A → Result (Buffer A)
append_to host array b x = do
  cap ← grow_array host array b.cap (count b + 1)
  ret (record { items = b.items ++ x ∷ []; cap = cap })

-- An array keeps the elements that its new capacity holds; one that is freed keeps none.
unfoldable pub shrink : {A : Type 0} → Host → Array → Buffer A → Result (Buffer A)
shrink host array b = do
  cap ← shrink_array host array b.cap (count b)
  ret (record { items = take cap b.items; cap = cap })
