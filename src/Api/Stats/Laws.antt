-- ===== src/Api/Stats/Laws.antt =====
-- What the statistics of the requests count, and under which names.
use tsdb_gw.Api.Stats.{
  RequestStats, Served, or_empty, or_root, path_latency, path_size, path_slug, path_status_count,
  replace_byte, request_stats, request_stats_all, trim_slash,
}
use tsdb_gw.Base.{
  Bool-cases, List, [], ap, arith, false, if◌then◌else◌, inl, inr, length, nat_eqb_iff, refl, ℕ,
  ◌%◌, ◌&&◌, ◌+◌, ◌<◌, ◌^◌, ◌∙◌, ◌∷◌, ◌≡◌, ◌≢◌,
}
use tsdb_gw.Base.Eq.{bytes_eq, bytes_eqb_iff, int_eq, nat_eq, ◌==◌}
use tsdb_gw.Base.Map.{get, get-put, put}
use tsdb_gw.Base.Text.{Bytes, Lacks, is_empty}
use tsdb_gw.Publish.{or_zero}

-- How many of the requests have this path and status.
pub count_requests : (Bytes → Bytes) → Bytes → ℕ → List Served → ℕ
count_requests clean path status [] = 0
count_requests clean path status (s ∷ ss) =
    (if path_slug clean s.path == path && s.status == status then 1 else 0)
    + count_requests clean path status ss

abbrev pub counter_at : RequestStats → Bytes → ℕ → ℕ
counter_at r path status = or_zero (get (or_empty (get r.response_counts path)) status)

same_counts :
    (r : RequestStats) (clean : Bytes → Bytes) (s : Served)
    → (request_stats clean r s).response_counts
      ≡ (path_status_count r (path_slug clean s.path) s.status).response_counts
unfolding request_stats path_size path_latency
same_counts r clean s = ground arith

counter-path_status_count :
    (r : RequestStats) (p path : Bytes) (t status : ℕ)
    → counter_at (path_status_count r p t) path status ≡ (
        if p == path && t == status
        then (counter_at r path status + 1) % 2 ^ 32
        else counter_at r path status)
unfolding path_status_count
counter-path_status_count r p path t status =
    let p_counts = or_empty (get r.response_counts p) in
    let n = (or_zero (get p_counts t) + 1) % 2 ^ 32 in
    ground (
      arith,
      get-put r.response_counts p path (put p_counts t n),
      get-put p_counts t status n,
      bytes_eqb_iff p path,
      nat_eqb_iff t status,
    )

replace-Lacks : (s : Bytes) (old new : ℕ) → old ≢ new → Lacks old (replace_byte s old new)
unfolding replace_byte
replace-Lacks [] old new h = tt
replace-Lacks (c ∷ s) old new h = ground (arith, replace-Lacks s old new h)

replace-keeps : (s : Bytes) (b old new : ℕ) → b ≢ new → Lacks b s → Lacks b (replace_byte s old new)
unfolding replace_byte
replace-keeps [] b old new h l = tt
replace-keeps (c ∷ s) b old new h (k, l) = ground (arith, replace-keeps s b old new h l)

replace_nonempty : (s : Bytes) (old new : ℕ) → is_empty (replace_byte s old new) ≡ is_empty s
unfolding replace_byte
replace_nonempty [] old new = refl
replace_nonempty (c ∷ s) old new = ground arith

root_nonempty : (s : Bytes) → is_empty (or_root s) ≡ false
root_nonempty [] = refl
root_nonempty (c ∷ s) = refl

-- Whatever the path, its slug is not empty and holds neither "/" nor ".".
path_slug-IsSlug :
    (clean : Bytes → Bytes) (p : Bytes)
    → (is_empty (path_slug clean p) ≡ false)
      × Lacks b'/' (path_slug clean p)
      × Lacks b'.' (path_slug clean p)
unfolding path_slug
path_slug-IsSlug clean p =
    let root = or_root (trim_slash (clean p)) in
    let one = replace_byte root b'/' b'_' in
    (
      replace_nonempty one b'.' b'_'
          ∙ replace_nonempty root b'/' b'_'
          ∙ root_nonempty (trim_slash (clean p)),
      replace-keeps one b'/' b'.' b'_' (omega arith) (replace-Lacks root b'/' b'_' (omega arith)),
      replace-Lacks one b'.' b'_' (omega arith),
    )

-- After a series of requests the counter of a path and a status has grown by the number of
-- requests with that slug and status, as long as it stays below 2^32.
pub requests_counted :
    (clean : Bytes → Bytes) (r : RequestStats) (ss : List Served) (path : Bytes) (status : ℕ)
    → counter_at r path status + length ss < 2 ^ 32
    → counter_at (request_stats_all clean r ss) path status
      ≡ counter_at r path status + count_requests clean path status ss
unfolding request_stats_all count_requests
requests_counted clean r [] path status h = omega arith
requests_counted clean r (s ∷ ss) path status h =
    let step =
      ap (λ c. or_zero (get (or_empty (get c path)) status)) (same_counts r clean s)
      ∙ counter-path_status_count r (path_slug clean s.path) path s.status status in
    elim (Bool-cases (path_slug clean s.path == path && s.status == status)) [
      | inl same ↦
          let now : counter_at (request_stats clean r s) path status
              ≡ counter_at r path status + 1 =
            step ∙ rw same (omega arith) in
          rw same (
            omega (
              arith,
              requests_counted clean (request_stats clean r s) ss path status (omega (arith, now)),
              now,
            ))
      | inr moved ↦
          let now : counter_at (request_stats clean r s) path status ≡ counter_at r path status =
            step ∙ rw moved refl in
          rw moved (
            omega (
              arith,
              requests_counted clean (request_stats clean r s) ss path status (omega (arith, now)),
              now,
            ))
    ]
