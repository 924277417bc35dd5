-- ===== src/Wmi/Laws.antt =====
-- Bounds of the values that come from Windows.
use pandora_agent_win.Base.Int.{ℤ, pos, negsuc}
use pandora_agent_win.Base.{
  ℕ, ◌*◌, ◌/◌, ◌≤◌, ◌<◌, ◌≡◌, refl, arith, Bool, true, false, Bool-cases, inl, inr, List, [], ◌∷◌,
  some, ◌==◌,
}
use pandora_agent_win.Text.{bytes}
use pandora_agent_win.Wmi.{
  Row, Answer, refused, rows, percentage, cpu_loop, counted, mean, get_cpu_usage_percentage,
  get_disk_free_space_percent,
}

abbrev IsLoad : ℕ × ℕ → Type 0
IsLoad (total_cpus, total_load) = total_load ≤ 100 * total_cpus

counted-IsLoad : (n : ℤ) (sums : ℕ × ℕ) → IsLoad sums → IsLoad (counted n sums)
counted-IsLoad (negsuc n) sums h = h
counted-IsLoad (pos n) (cpus, load) h = ground arith

quotient_bounded : (n d : ℕ) → 0 < d → n ≤ 100 * d → n / d ≤ 100
quotient_bounded n d p h = grind arith

cpu_loop-IsLoad : (sums : ℕ × ℕ) (l : List Row) → IsLoad sums → IsLoad (cpu_loop sums l)
unfolding cpu_loop
cpu_loop-IsLoad sums [] h = h
cpu_loop-IsLoad sums (r ∷ rs) h =
    cpu_loop-IsLoad (counted (r.number (bytes "LoadPercentage")) sums) rs
      (counted-IsLoad (r.number (bytes "LoadPercentage")) sums h)

mean_bounded : (sums : ℕ × ℕ) → IsLoad sums → mean sums ≤ 100
unfolding mean
mean_bounded (cpus, load) h = elim (Bool-cases (cpus == 0)) [
  | inl e ↦ rw e (omega arith)
  | inr e ↦ rw e (quotient_bounded load cpus (ground arith) h)
]

-- A usage that is reported is a percentage, whatever loads the processors give.
pub get_cpu_usage_percentage_bounded :
    (a : Answer) (usage : ℕ) → get_cpu_usage_percentage a ≡ some usage → usage ≤ 100
unfolding get_cpu_usage_percentage
get_cpu_usage_percentage_bounded refused usage e = cc
get_cpu_usage_percentage_bounded (rows l false) usage e = cc
get_cpu_usage_percentage_bounded (rows l true) usage e =
    let bounded = mean_bounded (cpu_loop (0, 0) l) (cpu_loop-IsLoad (0, 0) l (omega arith)) in
    let same : mean (cpu_loop (0, 0) l) ≡ usage = cc in rw (← same) bounded

pub percentage_bounded : (a b : ℕ) → a ≤ b → percentage a b ≤ 100
unfolding percentage
percentage_bounded a b h = elim (Bool-cases (b == 0)) [
  | inl e ↦ rw e (omega arith)
  | inr e ↦ rw e (quotient_bounded (a * 100) b (ground arith) (omega arith))
]

-- So is the share of free space of a disk that has no more of it than its size.
pub get_disk_free_space_percent_bounded :
    (r : Row) (rs : List Row) (complete : Bool)
    → r.size (bytes "FreeSpace") ≤ r.size (bytes "Size")
    → (share : ℕ) × (get_disk_free_space_percent (rows (r ∷ rs) complete) ≡ some share)
      × (share ≤ 100)
unfolding get_disk_free_space_percent
get_disk_free_space_percent_bounded r rs complete h = (
  percentage (r.size (bytes "FreeSpace")) (r.size (bytes "Size")),
  refl,
  percentage_bounded (r.size (bytes "FreeSpace")) (r.size (bytes "Size")) h,
)
