-- ===== src/Ratelimit/Tests.antt =====
-- Instances of the theorems on rate limits, with buckets that only count down.
use grpcx.Common.{
  List, ◌∷◌, [], store, ℕ, zero, suc, String, [], ◌≡◌, ◌≢◌, refl, Option, none, some, Bool, true,
  false, string_equality, lookup, ◌⊎◌,
}
use grpcx.Common.Result.{Result, success, failure}
use grpcx.Platform.{resource_exhausted}
use grpcx.Errs.{foreign, GoError}
use grpcx.Auth.{Handler, with_claims, claims_from_context}
use grpcx.Auth.Types.{Claims}
use grpcx.Ratelimit.{
  Limiter, RatePackage, TokenBucketLimiter, new_token_bucket_limiter, allow, is_stale, cleanup_loop,
  cleanup_round, Branch, takes_tick, takes_stop, evict_stale, get_or_create, touch, write_at, stop,
  rate_limit_interceptor, key_by_method,
}
use grpcx.Ratelimit.Concurrent.{
  wants, missed, made, holds, System, Reachable, start, arrive, step, move,
}
use grpcx.Ratelimit.Concurrent.Isolation.{Reachable-one_key}
use grpcx.Ratelimit.Concurrent.Agreement.{Reachable-one_entry}
use grpcx.Ratelimit.Buckets.{IsWellFormed, view, new-IsWellFormed}
use grpcx.Ratelimit.Buckets.Allow.{allow_lem}
use grpcx.Ratelimit.Eviction.{cleanup_loop_lem}
use grpcx.Ratelimit.Limits.{rate_limit_interceptor_lem}
use grpcx.Samples.{
  in_order, sample_metadata, sample_platform, sample_status_package, SampleStatus,
  sample_from_error, background, Ctx,
}

abbrev draw : ℕ → ℕ → ℕ × Bool
draw now zero = (zero, false)
draw now (suc left) = (left, true)

abbrev counting : RatePackage
counting = record { Limit = ℕ; Bucket = ℕ; new_limiter = λ r burst. burst; allow_bucket = draw }

abbrev empty_limiter : TokenBucketLimiter counting
empty_limiter = new_token_bucket_limiter counting 1 2

allow_lem_example :
    ((allow counting 7 empty_limiter "k").1 ≡ true)
    × (view counting (allow counting 7 empty_limiter "k").0 "k"
        ≡ some (record { limiter = 1; last_seen = 7 }))
    × IsWellFormed counting (allow counting 7 empty_limiter "k").0
unfolding new_token_bucket_limiter lookup
allow_lem_example = allow_lem counting 7 empty_limiter "k" "k" (new-IsWellFormed counting 1 2)

-- "a" was seen at 0 and "b" at 500, and Stop has been called
abbrev two_keys : TokenBucketLimiter counting
two_keys = stop counting (allow counting 500 (allow counting 0 empty_limiter "a").0 "b").0

-- the select takes a tick although Stop was called, and then returns
abbrev late_tick : List Branch
late_tick = takes_tick 700 ∷ takes_stop ∷ []

abbrev left_over : TokenBucketLimiter counting
left_over = evict_stale counting in_order 700 two_keys

two_keys-IsWellFormed : IsWellFormed counting two_keys
unfolding stop
two_keys-IsWellFormed =
    let first = (allow counting 0 empty_limiter "a").0 in
    let w = (allow_lem counting 0 empty_limiter "a" "a" (new-IsWellFormed counting 1 2)).2 in
    let w' = (allow_lem counting 500 first "b" "b" w).2 in
    record { in_heap = w'.in_heap; one_key = w'.one_key; unique = w'.unique }

late_run : cleanup_loop counting in_order late_tick two_keys ≡ some (left_over, false)
unfolding cleanup_loop cleanup_round stop evict_stale
late_run = refl

cleanup_loop_lem_example :
    (view counting left_over "a" ≡ none)
    × IsWellFormed counting left_over
    × (◌≡◌ {A = Bool} false false → two_keys.stopped ≡ true)
unfolding is_stale stop allow new_token_bucket_limiter get_or_create touch write_at lookup store
cleanup_loop_lem_example =
    cleanup_loop_lem counting in_order late_tick two_keys left_over "a" false two_keys-IsWellFormed
      late_run

abbrev never : Limiter sample_metadata ℕ
never s key = (suc s, false)

abbrev echo : Handler sample_metadata sample_platform String (Option String)
echo ctx req = success (some req)

abbrev limited : ℕ × Result (GoError sample_platform) (Option String)
limited =
    rate_limit_interceptor sample_metadata sample_platform (key_by_method sample_metadata) never 0
      background "hi" "/a/b" echo

abbrev method_key : String
method_key = key_by_method sample_metadata background "/a/b"

rate_limit_interceptor_lem_example :
    ((method_key ≡ "") × (limited.0 ≡ 0) × (limited.1 ≡ echo background "hi"))
    ⊎ ((method_key ≢ "") × (limited.0 ≡ 1) × (false ≡ true) × (limited.1 ≡ echo background "hi"))
    ⊎ ((method_key ≢ "")
        × (limited.0 ≡ 1)
        × (false ≡ false)
        × (x : SampleStatus) × (st : SampleStatus) × (limited.1 ≡ failure (foreign x))
        × (sample_from_error "grpcx" (foreign x) ≡ (st, true))
        × (st.number ≡ resource_exhausted))
rate_limit_interceptor_lem_example =
    rate_limit_interceptor_lem sample_metadata sample_platform "grpcx"
      (sample_status_package "grpcx") (key_by_method sample_metadata) never 0 background "hi" "/a/b"
      echo

abbrev ann : Claims
ann = record { identity_id = "ann"; scope = ""; roles = []; email = "" }

abbrev here : Ctx
here = with_claims sample_metadata (record background { peer = some "10.0.0.1:80" }) (some ann)

abbrev there : Ctx
there = with_claims sample_metadata background (some ann)

known_here : claims_from_context sample_metadata here ≡ some ann
unfolding claims_from_context with_claims
known_here = refl

known_there : claims_from_context sample_metadata there ≡ some ann
unfolding claims_from_context with_claims
known_there = refl

-- Two calls for one key that both find the map empty: the entry of the first is the one that counts.
abbrev raced : System counting
raced = record {
  limiter = record {
    entries = ("k", 0) ∷ [];
    heap = record { limiter = 2; last_seen = 1 } ∷ record { limiter = 2; last_seen = 1 } ∷ [];
    rate = 1;
    burst = 2;
    ttl = 600;
    stopped = false;
  };
  calls = ("k", holds 0) ∷ ("k", holds 0) ∷ [];
  marked = none;
}

race : Reachable counting 1 2 true raced
unfolding new_token_bucket_limiter move lookup store
race =
    let both = arrive true _ "k" (arrive true _ "k" start) in
    let a1 = step true 1 _ none [] (("k", wants) ∷ []) "k" wants both in
    let b1 = step true 1 _ none (("k", missed) ∷ []) [] "k" wants a1 in
    let a2 = step true 1 _ none [] (("k", missed) ∷ []) "k" missed b1 in
    let b2 = step true 1 _ none (("k", made 0) ∷ []) [] "k" missed a2 in
    let a3 = step true 1 _ none [] (("k", made 1) ∷ []) "k" (made 0) b2 in
    step true 1 _ none (("k", holds 0) ∷ []) [] "k" (made 1) a3

abbrev one_key : String
one_key = "k"

abbrev first : ℕ
first = 0

Reachable-one_key_example : one_key ≡ one_key
Reachable-one_key_example =
    Reachable-one_key counting 1 2 true raced 0 1 0 "k" "k" (holds 0) (holds 0) race refl refl refl
      refl

Reachable-one_entry_example : first ≡ first
Reachable-one_entry_example =
    Reachable-one_entry counting 1 2 raced 0 1 0 0 "k" (holds 0) (holds 0) race refl refl refl refl
