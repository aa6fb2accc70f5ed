-- ===== src/Ratelimit.antt =====
-- ratelimit: the interceptor, its key functions, and the token buckets by key. The buckets themselves
-- are golang.org/x/time/rate's, a parameter. An entry is a pointer: the map holds addresses into a
-- heap, and a write to an entry goes through its address. Times and lengths of time are numbers.
pub mod Concurrent
pub mod Limits
pub mod Buckets
pub mod Eviction
mod Tests
use grpcx.Common.{
  zero, suc, ℕ, ◌+◌, String, List, [], ◌∷◌, ◌++◌, ◌≡◌, Option, none, some, Map, lookup, store,
  delete, RangeOrder, Bool, true, false, if◌then◌else◌, str_eq, string_equality, not, ◌&&◌, ltb,
  length, get_elem?,
}
use grpcx.Common.Text.{◌+++◌}
use grpcx.Common.Result.{Result, success, failure}
use grpcx.Platform.{Platform, resource_exhausted}
use grpcx.Errs.{GoError, foreign}
use grpcx.Context.{MetadataPackage, Context}
use grpcx.Auth.{Handler, claims_from_context, status_errorf}

module _ (M : MetadataPackage) where
  -- a KeyFunc, of the context and the full method
  abbrev pub KeyFunc : Type 0
  KeyFunc = Context M → String → String

  unfoldable pub peer_addr : Context M → String
  peer_addr ctx = elim ctx.peer [ none ↦ "" | some addr ↦ addr ]

  unfoldable pub key_by_user_id : KeyFunc
  unfolding peer_addr
  key_by_user_id ctx full_method = elim (claims_from_context M ctx) [
    | none ↦ peer_addr ctx
    | some claims ↦
        if not (str_eq claims.identity_id "") then "user:" +++ claims.identity_id else peer_addr ctx
  ]

  unfoldable pub key_by_ip : KeyFunc
  unfolding peer_addr
  key_by_ip ctx full_method = peer_addr ctx

  unfoldable pub key_by_method : KeyFunc
  key_by_method ctx full_method = "method:" +++ full_method

  -- The Limiter interface, over the state of its implementation.
  abbrev pub Limiter {ℓ} : Type ℓ → Type ℓ
  Limiter S = S → String → S × Bool

  module _ (P : Platform) where
    open P use {Err}

    -- (nil, err), where a nil error makes it a success with a nil response
    abbrev pub refused {ℓ} : {Resp : Type ℓ} → Option Err → Result (GoError P) (Option Resp)
    refused none = success none
    refused (some x) = failure (foreign x)

    -- The interceptor of NewUnaryServerInterceptor: the limiter's state afterwards, and the result.
    unfoldable pub rate_limit_interceptor {ℓ κ ι} :
        {S : Type ℓ} {Req : Type κ} {Resp : Type ι}
        → KeyFunc
        → Limiter S
        → S
        → Context M
        → Req
        → String
        → Handler M P Req (Option Resp)
        → S × Result (GoError P) (Option Resp)
    rate_limit_interceptor key_fn allow s ctx req full_method handler =
        let key = key_fn ctx full_method in
        let (after, allowed) = allow s key in
        if str_eq key ""
        then (s, handler ctx req)
        else if not allowed
        then (after, refused (status_errorf M P resource_exhausted "rate limit exceeded"))
        else (after, handler ctx req)

-- golang.org/x/time/rate: the state of a *rate.Limiter, NewLimiter, and Allow at a time.
pub record RatePackage : Type 1 where
  pub Limit : Type 0
  pub Bucket : Type 0
  pub new_limiter : Limit → ℕ → Bucket
  pub allow_bucket : ℕ → Bucket → Bucket × Bool

-- the two branches of the select of cleanupLoop; a tick comes at a time
pub data Branch : Type 0 where
  takes_stop : Branch
  takes_tick : ℕ → Branch

module _ (R : RatePackage) where
  open R use {Limit, Bucket, new_limiter, allow_bucket}

  pub record Entry : Type 0 where
    pub limiter : Bucket
    pub last_seen : ℕ

  -- The limiter with the heap that its entries live in: an address is the position of an entry.
  -- `stopped` tells whether stopCh is closed.
  pub record TokenBucketLimiter : Type 0 where
    pub entries : Map String ℕ
    pub heap : List Entry
    pub rate : Limit
    pub burst : ℕ
    pub ttl : ℕ
    pub stopped : Bool

  -- ten minutes in seconds
  abbrev pub default_ttl : ℕ
  default_ttl = 600

  unfoldable pub new_token_bucket_limiter : Limit → ℕ → TokenBucketLimiter
  new_token_bucket_limiter r burst = record {
    entries = [];
    heap = [];
    rate = r;
    burst = burst;
    ttl = default_ttl;
    stopped = false;
  }

  -- a write through an address
  unfoldable pub write_at : ℕ → Entry → List Entry → List Entry
  write_at a e [] = []
  write_at zero e (x ∷ heap) = e ∷ heap
  write_at (suc a) e (x ∷ heap) = x ∷ write_at a e heap

  -- getOrCreate at the time `now`: the limiter afterwards and the address of the entry
  unfoldable pub get_or_create : ℕ → TokenBucketLimiter → String → TokenBucketLimiter × ℕ
  get_or_create now l key = elim (lookup key l.entries) [
    | some a ↦ (l, a)
    | none ↦
        let e : Entry = record { limiter = new_limiter l.rate l.burst; last_seen = now } in
        let a = length l.heap in
        (record l { heap = l.heap ++ e ∷ []; entries = store key a l.entries }, a)
  ]

  unfoldable pub touch : ℕ → Entry → Entry
  touch now e = record e { last_seen = now }

  -- e.limiter.Allow()
  unfoldable pub take : ℕ → Entry → Entry × Bool
  take now e = let (b, allowed) = allow_bucket now e.limiter in (record e { limiter = b }, allowed)

  -- Allow at the time `now`. An address without an entry does not occur, see IsWellFormed.
  unfoldable pub allow : ℕ → TokenBucketLimiter → String → TokenBucketLimiter × Bool
  unfolding get_or_create touch take write_at
  allow now l key =
      let (l', a) = get_or_create now l key in
      elim (get_elem? l'.heap a) [
        | none ↦ (l', false)
        | some e ↦
            let (e', allowed) = take now (touch now e) in
            (record l' { heap = write_at a e' l'.heap }, allowed)
      ]

  -- lastSeen.Before(now.Add(-ttl))
  unfoldable pub is_stale : ℕ → ℕ → Option Entry → Bool
  is_stale now ttl none = false
  is_stale now ttl (some e) = ltb (e.last_seen + ttl) now

  -- the visits of entries.Range
  unfoldable pub evict_visited :
      ℕ → TokenBucketLimiter → Map String ℕ → List (String × ℕ) → Map String ℕ
  unfolding is_stale
  evict_visited now l entries [] = entries
  evict_visited now l entries ((k, a) ∷ visits) =
      let kept = if is_stale now l.ttl (get_elem? l.heap a) then delete k entries else entries in
      evict_visited now l kept visits

  module _ (range : RangeOrder (String × ℕ)) where
    unfoldable pub evict_stale : ℕ → TokenBucketLimiter → TokenBucketLimiter
    unfolding evict_visited
    evict_stale now l = record l { entries = evict_visited now l l.entries (range.visit l.entries) }

    -- One round of cleanupLoop, by the branch that its select takes: the limiter afterwards and whether
    -- the loop goes on, or `none` where that branch is not ready. Where stopCh is closed and the
    -- ticker has fired, both are.
    unfoldable pub cleanup_round : Branch → TokenBucketLimiter → Option (TokenBucketLimiter × Bool)
    unfolding evict_stale
    cleanup_round takes_stop l = if l.stopped then some (l, false) else none
    cleanup_round (takes_tick now) l = some (evict_stale now l, true)

    -- cleanupLoop, by the branches that it takes until it returns or is looked at
    unfoldable pub cleanup_loop :
        List Branch → TokenBucketLimiter → Option (TokenBucketLimiter × Bool)
    unfolding cleanup_round
    cleanup_loop [] l = some (l, true)
    cleanup_loop (b ∷ branches) l = elim (cleanup_round b l) [
      | none ↦ none
      | some (l', goes_on) ↦
          let rest = cleanup_loop branches l' in if goes_on then rest else some (l', false)
    ]

  -- Stop: closes the channel once
  unfoldable pub stop : TokenBucketLimiter → TokenBucketLimiter
  stop l = record l { stopped = true }
