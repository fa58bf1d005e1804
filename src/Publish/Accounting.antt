-- ===== src/Publish/Accounting.antt =====
-- The accounting of `Publish`.
use tsdb_gw.Base.{Bool, List, [], arith, if◌then◌else◌, length, ℕ, ◌+◌, ◌<◌, ◌∷◌, ◌≡◌, ◌≤◌, ◌%◌}
use tsdb_gw.Base.Eq.{bytes_eq, int_eq, nat_eq, ◌==◌}
use tsdb_gw.Base.Int.{ℤ, int_eqb_iff}
use tsdb_gw.Base.Map.{Map, get, get-put, put}
use tsdb_gw.Metric.{Metric}
use tsdb_gw.Publish.{count_orgs, or_zero, publish, published, word32}

-- How many metrics belong to an organisation.
pub count_of : ℤ → List Metric → ℕ
count_of org [] = 0
count_of org (m ∷ ms) = (if m.org_id == org then 1 else 0) + count_of org ms

count_of-le_length : (org : ℤ) (ms : List Metric) → count_of org ms ≤ length ms
unfolding count_of
count_of-le_length org [] = omega arith
count_of-le_length org (m ∷ ms) = ground (arith, count_of-le_length org ms)

get-count_orgs :
    (counts : Map ℤ ℕ) (ms : List Metric) (org : ℤ)
    → or_zero (get counts org) + length ms < word32
    → or_zero (get (count_orgs counts ms) org) ≡ or_zero (get counts org) + count_of org ms
unfolding count_orgs count_of
get-count_orgs counts [] org h = omega arith
get-count_orgs counts (m ∷ ms) org h =
    let n = (or_zero (get counts m.org_id) + 1) % word32 in
    ground (
      arith,
      get-count_orgs (put counts m.org_id n) ms org,
      get-put counts m.org_id org n,
      int_eqb_iff m.org_id org,
    )

-- A batch of fewer than 2^31 metrics that is published is counted once, each metric for its own
-- organisation.
pub publish_counts :
    (publisher : List Metric → Bool) (ms : List Metric) (counts : Map ℤ ℕ) (org : ℤ)
    → length ms < 2147483648
    → publish publisher ms ≡ published counts
    → or_zero (get counts org) ≡ count_of org ms
unfolding publish
publish_counts publisher ms counts org h e = unfold get in ground (arith, get-count_orgs [] ms org)
