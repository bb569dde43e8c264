-- ===== src/Analyzer/Conflict/Search.antt =====
-- The binary search of internal/analyzer/conflict.go finds the threshold.
use shinel.Base.{ℕ, zero, suc, ◌+◌, ◌/◌, ◌≤◌, ◌≡◌, leb, arith}
use shinel.Analyzer.Conflict.{search_between, sort_search}

search_between_lem :
    (fuel i j t : ℕ) → i ≤ t → t ≤ j → j ≤ i + fuel → search_between fuel i j (leb t) ≡ t
unfolding search_between
search_between_lem zero i j t h k f = omega arith
search_between_lem (suc fuel) i j t h k f =
    let m = (i + j) / 2 in
    ground (arith, search_between_lem fuel (m + 1) j t, search_between_lem fuel i m t)

-- Where the test holds exactly from `t` on, `sort.Search` returns `t`.
pub sort_search_lem : (n t : ℕ) → t ≤ n → sort_search n (leb t) ≡ t
unfolding sort_search
sort_search_lem n t h = search_between_lem n 0 n t (omega arith) h (omega arith)
