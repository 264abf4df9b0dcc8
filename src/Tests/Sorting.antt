-- ===== src/Tests/Sorting.antt =====
-- The merge sort example on eight images, with the jobs in reverse order.
use mathlib.Core.List.{reverse}
use boost_threadpool.Common.{ℕ, ◌-◌, ◌^◌, ◌≡◌, refl, List, [], ◌∷◌}
use boost_threadpool.Mergesort.Jobs.{mergesort, filled}
use boost_threadpool.Mergesort.Blocks.{numbers}

abbrev eight : List ℕ
eight = 5 ∷ 3 ∷ 8 ∷ 1 ∷ 9 ∷ 2 ∷ 7 ∷ 4 ∷ []

abbrev backwards : ℕ → List ℕ
backwards step = reverse (numbers (2 ^ (3 - step)))

eight_sorted : mergesort backwards 3 eight ≡ 1 ∷ 2 ∷ 3 ∷ 4 ∷ 5 ∷ 7 ∷ 8 ∷ 9 ∷ []
unfolding mergesort
eight_sorted = refl

filled_four : filled 4 0 4 ≡ 3 ∷ 2 ∷ 1 ∷ 0 ∷ []
unfolding filled
filled_four = refl
