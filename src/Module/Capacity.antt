-- ===== src/Module/Capacity.antt =====
-- grow_array of src/xair.c returns a capacity that holds what is needed.
use xair.Prelude.{
  ℕ, zero, suc, ◌+◌, ◌*◌, ◌/◌, ◌≤◌, ◌<◌, ◌≡◌, ◌&&◌, not, ltb, leb, ◌==◌, arith, Bool-cases, inl,
  inr, if◌then◌else◌,
}
use xair.Prelude.Words.{size_max}
use xair.Status.{oom, ret, ◌>>=◌, ◌>>◌, >>=-eq-ret, reject_if}
use xair.Module.Grow.{Array, Host, grow_cap, grow_array}

-- With enough rounds the loop ends at a capacity that holds what is needed.
grow_cap-bounds :
    (fuel cap need : ℕ) (c : ℕ)
    → 1 ≤ cap
    → need < cap + fuel + 1
    → need ≤ size_max
    → cap ≤ size_max
    → grow_cap fuel cap need ≡ ret c
    → (need ≤ c) × (cap ≤ c) × (c ≤ size_max)
unfolding grow_cap
grow_cap-bounds zero cap need c pos enough small fits h = ground arith
grow_cap-bounds (suc fuel) cap need c pos enough small fits h =
    ground (arith, grow_cap-bounds fuel (cap * 2) need c)

-- A capacity that grow_array returns holds what is needed, is no smaller than the one before, and is a
-- size_t, where the one before is.
pub grow_array-holds :
    (host : Host) (array : Array) (cap need c : ℕ)
    → cap ≤ size_max
    → need ≤ size_max
    → grow_array host array cap need ≡ ret c
    → (need ≤ c) × (cap ≤ c) × (c ≤ size_max)
unfolding grow_array
grow_array-holds host array cap need c fits small h = elim (Bool-cases (leb need cap)) [
  | inl e ↦
      let same : cap ≡ c = ground arith in
      let holds : need ≤ cap = ground arith in (omega arith, omega arith, omega arith)
  | inr e ↦
      let start : ℕ = if cap == 0 then 8 else cap in
      let more : (grow_cap need start need >>= λ next_cap.
      reject_if (not (host.size_of array == 0) && ltb (size_max / host.size_of array) next_cap) oom
      >> (reject_if (not (host.realloc array (next_cap * host.size_of array))) oom >> ret next_cap))
          ≡ ret c =
        ground arith in
      let (next_cap, grown, rest) = >>=-eq-ret (grow_cap need start need) _ more in
      let same : next_cap ≡ c = ground arith in
      let pos : 1 ≤ start = ground arith in
      let above : cap ≤ start = ground arith in
      let small_start : start ≤ size_max = ground arith in
      let (a, b, d) =
        grow_cap-bounds need start need next_cap pos (omega arith) small small_start grown in
      (omega arith, omega arith, omega arith)
]
