-- ===== src/Controller/DeviceIndex/Search.antt =====
-- The search for a free device index.
use aws_multi_eni_controller.Prelude.{
  ℕ, zero, suc, ◌+◌, ◌≤◌, ◌<◌, ◌≡◌, refl, true, false, inl, inr, List, [], ◌∷◌, arith,
  if◌then◌else◌, length, Bool-cases,
}
use aws_multi_eni_controller.Prelude.Int.{
  ℤ, pos, ◌+ℤ◌, ◌≤ℤ◌, ◌<ℤ◌, leb_ℤ, contains_int, +ℤ_parts, eq_of_parts,
}
use aws_multi_eni_controller.Controller.DeviceIndex.{
  next_free, find_available_device_index, find_next_available_device_index,
}

-- How many keys are at or above `i`.
count_from : ℤ → List ℤ → ℕ
count_from i [] = 0
count_from i (k ∷ ks) = (if leb_ℤ i k then 1 else 0) + count_from i ks

count_from-le-length : (i : ℤ) (ks : List ℤ) → count_from i ks ≤ length ks
unfolding count_from
count_from-le-length i [] = omega arith
count_from-le-length i (k ∷ ks) = ground (arith, count_from-le-length i ks)

count_from-suc-le : (i : ℤ) (ks : List ℤ) → count_from (i +ℤ pos 1) ks ≤ count_from i ks
unfolding count_from
count_from-suc-le i [] = omega arith
count_from-suc-le i (k ∷ ks) = ground (arith, count_from-suc-le i ks, +ℤ_parts i (pos 1))

-- Passing a key that is used leaves fewer keys ahead.
count_from-suc-lt :
    (i : ℤ) (ks : List ℤ) → contains_int ks i ≡ true → count_from (i +ℤ pos 1) ks < count_from i ks
unfolding count_from
count_from-suc-lt i [] h = cc
count_from-suc-lt i (k ∷ ks) h =
    ground (arith, count_from-suc-lt i ks, count_from-suc-le i ks, +ℤ_parts i (pos 1))

next_free-unused :
    (fuel : ℕ) (i : ℤ) (used : List ℤ)
    → count_from i used ≤ fuel
    → contains_int used (next_free fuel i used) ≡ false
unfolding next_free
next_free-unused zero i used h = elim (Bool-cases (contains_int used i)) [
  | inl e ↦ absurd (omega (arith, count_from-suc-lt i used e))
  | inr e ↦ e
]
next_free-unused (suc fuel) i used h = elim (Bool-cases (contains_int used i)) [
  | inl e ↦
      rw (e, next_free)
        (next_free-unused fuel (i +ℤ pos 1) used (omega (arith, count_from-suc-lt i used e)))
  | inr e ↦ rw (e, next_free) e
]

next_free-ge : (fuel : ℕ) (i : ℤ) (used : List ℤ) → i ≤ℤ next_free fuel i used
unfolding next_free
next_free-ge zero i used = omega arith
next_free-ge (suc fuel) i used =
    ground (arith, next_free-ge fuel (i +ℤ pos 1) used, +ℤ_parts i (pos 1))

next_free-least :
    (fuel : ℕ) (i k : ℤ) (used : List ℤ)
    → i ≤ℤ k
    → k <ℤ next_free fuel i used
    → contains_int used k ≡ true
unfolding next_free
next_free-least zero i k used h l = absurd (omega arith)
next_free-least (suc fuel) i k used h l =
    ground (arith, next_free-least fuel (i +ℤ pos 1) k used, +ℤ_parts i (pos 1), eq_of_parts i k)

-- The search ends at an index that is not in use, at or above the start, and every index that it
-- passed is in use: it is the first free one.
pub find_available_device_index_lem :
    (start : ℤ) (used : List ℤ)
    → (contains_int used (find_available_device_index start used) ≡ false)
      × (start ≤ℤ find_available_device_index start used)
      × ((k : ℤ)
          → start ≤ℤ k
          → k <ℤ find_available_device_index start used
          → contains_int used k ≡ true)
unfolding find_available_device_index
find_available_device_index_lem start used = (
  next_free-unused (length used) start used (count_from-le-length start used),
  next_free-ge (length used) start used,
  λ k. next_free-least (length used) start k used,
)

-- The search over the indices that AWS reports ends at a free one.
pub find_next_available_device_index-unused :
    (start : ℤ) (used : List ℤ)
    → contains_int used (find_next_available_device_index start used) ≡ false
unfolding find_next_available_device_index
find_next_available_device_index-unused start used =
    next_free-unused (length used) start used (count_from-le-length start used)

-- A free start is kept, and a used start before a free index moves by one.
pub find_available-free :
    (start : ℤ) (used : List ℤ)
    → contains_int used start ≡ false
    → find_available_device_index start used ≡ start
unfolding find_available_device_index next_free
find_available-free start [] h = refl
find_available-free start (k ∷ ks) h = rw (h, next_free)

next_free-one :
    (fuel : ℕ) (i : ℤ) (used : List ℤ)
    → contains_int used i ≡ true
    → contains_int used (i +ℤ pos 1) ≡ false
    → next_free (suc fuel) i used ≡ i +ℤ pos 1
unfolding next_free
next_free-one zero i used h l = rw (h, next_free)
next_free-one (suc fuel) i used h l = rw (h, next_free) (rw (l, next_free))

pub find_available-next :
    (start : ℤ) (used : List ℤ)
    → contains_int used start ≡ true
    → contains_int used (start +ℤ pos 1) ≡ false
    → find_available_device_index start used ≡ start +ℤ pos 1
unfolding find_available_device_index
find_available-next start [] h l = cc
find_available-next start (k ∷ ks) h l = next_free-one (length ks) start (k ∷ ks) h l
