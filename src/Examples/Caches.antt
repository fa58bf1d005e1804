-- ===== src/Examples/Caches.antt =====
-- The key cache and the caches of grafana.com's answers in the examples.
use tsdb_gw.Base.{
  [], arith, false, if◌then◌else◌, ltb, none, refl, some, true, ◌&&◌, ◌*◌, ◌∷◌, ◌≡◌, ℕ, List,
}
use tsdb_gw.Base.Eq.{bytes_eq, bytes_eqb, int_eq, nat_eq, ◌==◌}
use tsdb_gw.Base.Int.{pos}
use tsdb_gw.Base.Map.{Unique, delete, get, put}
use tsdb_gw.Base.Text.{Bytes, codes}
use tsdb_gw.Gcom.{
  Verdict, invalid, invalid_api_key, invalid_instance_id, invalid_org_id, is_expired, response,
  second, valid,
}
use tsdb_gw.Gcom.Instance.{
  InstanceCache, Settings, cache_key, check_instance, set_instance, validate_instance,
}
use tsdb_gw.Gcom.Instance.Laws.{check_instance_uncached, server_error_passes, item_of}
use tsdb_gw.Gcom.Token.{SignedInUser, TokenCache, TokenResp, validate_tokens}
use tsdb_gw.Gcom.Token.Expiry.{
  expired_item, get-validate_tokens, invalid_org_lingers, looked_at, validate_rounds,
  validate_tokens_fresh,
}
use tsdb_gw.Keycache.{KeyCache, MKey, clear_rounds, first_byte, touch, Cache, new_key_cache}
use tsdb_gw.Keycache.Refinement.{Op, no_keys, run, run_refines, run_set, tick_clear, touch_key}
use tsdb_gw.Keycache.Rounds.{rounds_before, seen-clear_rounds, seen-touch, touch-IsValid}
use tsdb_gw.Keycache.Seen.{IsKey, IsValid, seen, HasShards}

-- Two keys of 16 bytes, in the shards 1 and 2.
abbrev pub key_one : MKey
key_one = record {
  key = 1 ∷ 2 ∷ 3 ∷ 4 ∷ 5 ∷ 6 ∷ 7 ∷ 8 ∷ 9 ∷ 10 ∷ 11 ∷ 12 ∷ 13 ∷ 14 ∷ 15 ∷ 16 ∷ [];
  org = 10;
}

abbrev key_two : MKey
key_two = record {
  key = 2 ∷ 2 ∷ 3 ∷ 4 ∷ 5 ∷ 6 ∷ 7 ∷ 8 ∷ 9 ∷ 10 ∷ 11 ∷ 12 ∷ 13 ∷ 14 ∷ 15 ∷ 16 ∷ [];
  org = 10;
}

pub key_one-IsKey : IsKey key_one.key
key_one-IsKey = record { size = refl; byte = omega arith }

key_two-IsKey : IsKey key_two.key
key_two-IsKey = record { size = refl; byte = omega arith }

abbrev pub empty_cache : KeyCache
empty_cache = record { clear_idx = 0; clear_interval = 3600; caches = [] }

no_cache : (org : ℕ) (c : Cache) → get empty_cache.caches org ≡ some c → HasShards c
unfolding get
no_cache org c e = cc e

pub empty_cache-IsValid : IsValid empty_cache
empty_cache-IsValid = record { index = omega arith; orgs = tt; shards = no_cache }

abbrev one_seen : KeyCache
one_seen = (touch empty_cache key_one).0

one_seen-IsValid : IsValid one_seen
one_seen-IsValid = touch-IsValid empty_cache key_one empty_cache-IsValid

seen-touch_example :
    ((touch one_seen key_two).1 ≡ seen one_seen key_two)
    × (seen (touch one_seen key_two).0 key_one ≡ (
        if key_two.org == key_one.org && key_two.key == key_one.key
        then true
        else seen one_seen key_one))
seen-touch_example =
    seen-touch one_seen key_two key_one one_seen-IsValid key_two-IsKey key_one-IsKey

seen-clear_rounds_example : seen (clear_rounds 2 one_seen) key_one ≡ (
    if ltb (rounds_before (first_byte key_one.key) one_seen.clear_idx) 2
    then false
    else seen one_seen key_one)
seen-clear_rounds_example = seen-clear_rounds 2 one_seen key_one one_seen-IsValid (omega arith)

abbrev key_ops : List Op
key_ops = touch_key key_one ∷ touch_key key_two ∷ tick_clear ∷ touch_key key_one ∷ []

run_refines_example : run (new_key_cache 3600) key_ops ≡ run_set no_keys key_ops
run_refines_example =
    run_refines 3600 key_ops (key_one-IsKey, (key_two-IsKey, (tt, (key_one-IsKey, tt))))

-- Two tokens: one that was found invalid, retrieved and read at 1 s, and one of an unlisted
-- organisation.
abbrev stale : TokenResp
stale = record { user = none; retrieved = second; last_read = 1 }

abbrev two_tokens : TokenCache
two_tokens = record {
  items = (codes "a", stale) ∷ (codes "b", stale) ∷ [];
  cache_ttl = 10 * second;
}

abbrev verdicts : Bytes → Verdict SignedInUser
verdicts key = if key == codes "a" then invalid invalid_api_key else invalid invalid_org_id

distinct_tokens : Unique two_tokens.items
unfolding get bytes_eqb
distinct_tokens = (refl, (refl, tt))

get-validate_tokens_example :
    get (validate_tokens two_tokens (60 * second) verdicts).items (codes "a") ≡ (
      if expired_item (60 * second) (10 * second) (get two_tokens.items (codes "a"))
      then looked_at (60 * second) (verdicts (codes "a")) (get two_tokens.items (codes "a"))
      else get two_tokens.items (codes "a"))
get-validate_tokens_example =
    get-validate_tokens two_tokens (60 * second) verdicts (codes "a") distinct_tokens

abbrev all_invalid : Bytes → Verdict SignedInUser
all_invalid key = invalid invalid_api_key

renewed_token :
    get (validate_tokens two_tokens (60 * second) all_invalid).items (codes "a")
    ≡ some (record stale { retrieved = 60 * second })
unfolding validate_tokens get put delete bytes_eqb
renewed_token = refl

validate_tokens_fresh_example : is_expired (60 * second) (60 * second) (10 * second) ≡ false
validate_tokens_fresh_example =
    validate_tokens_fresh two_tokens (60 * second) all_invalid (codes "a")
      {i = record stale { retrieved = 60 * second }} distinct_tokens (λ k. tt) renewed_token

verdict_b : verdicts (codes "b") ≡ invalid invalid_org_id
unfolding bytes_eqb
verdict_b = refl

invalid_org_lingers_example :
    get (validate_rounds two_tokens (60 * second ∷ 120 * second ∷ []) verdicts).items (codes "b")
    ≡ get two_tokens.items (codes "b")
invalid_org_lingers_example =
    invalid_org_lingers two_tokens (60 * second ∷ 120 * second ∷ []) verdicts (codes "b")
      distinct_tokens verdict_b

abbrev no_instances : InstanceCache
no_instances = record { items = []; cache_ttl = 10 * second }

not_cached : get no_instances.items (cache_key (codes "7") (codes "abc")) ≡ none
unfolding get
not_cached = refl

abbrev refuses_instance : Bytes → Bytes → Verdict (Unit {0})
refuses_instance instance_id token = invalid invalid_instance_id

check_instance_uncached_example :
    let r = check_instance no_instances (codes "abc") (codes "7") (5 * second) refuses_instance in
    (r.0 ≡ some (invalid invalid_instance_id))
    × ((j : Bytes)
        → get r.1.items j ≡ (
            if cache_key (codes "7") (codes "abc") == j
            then item_of (5 * second) (invalid invalid_instance_id)
            else get no_instances.items j))
check_instance_uncached_example =
    check_instance_uncached no_instances (codes "abc") (codes "7") (5 * second) refuses_instance
      (ground arith) not_cached

abbrev plain_settings : Settings
plain_settings = record {
  auth_endpoint = codes "https://grafana.com";
  valid_instance_type = [];
  valid_cluster_id = pos 0;
  validation_dry_run = false;
}

server_error_passes_example :
    check_instance no_instances
      (codes "abc")
      (codes "7")
      (5 * second)
      (validate_instance (λ body. none) plain_settings (λ url token. some (response 503 [])))
    ≡ (
      some (valid tt),
      set_instance no_instances (cache_key (codes "7") (codes "abc")) true (5 * second),
    )
server_error_passes_example =
    server_error_passes (λ body. none) plain_settings (λ url token. some (response 503 []))
      no_instances (codes "abc") (codes "7") (5 * second) 503 [] (ground arith) not_cached
      (omega arith) refl
