-- ===== src/Publish.antt =====
-- publish/publish.go: the front of the publishers. `publisher` is the installed publisher's
-- `Publish`, true for a nil error. The accounting per organisation counts in int32.
pub mod Accounting
use tsdb_gw.Base.{Bool, List, Option, [], if◌then◌else◌, none, some, true, ℕ, ◌%◌, ◌+◌, ◌∷◌}
use tsdb_gw.Base.Eq.{bytes_eq, int_eq, nat_eq}
use tsdb_gw.Base.Int.{ℤ}
use tsdb_gw.Base.Map.{Map, get, put}
use tsdb_gw.Base.Text.{is_empty}
use tsdb_gw.Metric.{Metric}

abbrev pub word32 : ℕ
word32 = 4294967296

abbrev pub or_zero : Option ℕ → ℕ
or_zero none = 0
or_zero (some n) = n

-- orgCounts[m.OrgId]++ for every metric
unfoldable pub count_orgs : Map ℤ ℕ → List Metric → Map ℤ ℕ
count_orgs counts [] = counts
count_orgs counts (m ∷ ms) =
    count_orgs (put counts m.org_id ((or_zero (get counts m.org_id) + 1) % word32)) ms

pub data PublishResult : Type 0 where
  nothing : PublishResult
  failed : PublishResult
  published : Map ℤ ℕ → PublishResult

-- Publish, with the counts that are added to `ingestedMetrics`.
unfoldable pub publish : (List Metric → Bool) → List Metric → PublishResult
unfolding count_orgs
publish publisher metrics =
    if is_empty metrics
    then nothing
    else if publisher metrics
    then published (count_orgs [] metrics)
    else failed

-- nullPublisher
unfoldable pub null_publisher : List Metric → Bool
null_publisher metrics = true
