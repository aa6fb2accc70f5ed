-- ===== src/Ratelimit/Concurrent.antt =====
-- Concurrent calls of Allow in ratelimit/tokenbucket.go, with the clean-up running beside them. Each
-- access to the sync.Map, to the fields of an entry under its lock and to its bucket is one step; a
-- call stands at one of the points of Pc, and the steps of the calls interleave in any order.
pub mod Sharing
pub mod Isolation
pub mod Agreement
use grpcx.Common.{
  ℕ, String, List, [], ◌∷◌, ◌++◌, ◌≡◌, Option, none, some, lookup, store, delete, Bool, true, false,
  string_equality, length, get_elem?,
}
use grpcx.Ratelimit.{
  RatePackage, Entry, TokenBucketLimiter, new_token_bucket_limiter, write_at, touch, take, is_stale,
}

-- Before Load, after a Load that missed, with an entry of its own before LoadOrStore, with the entry
-- that getOrCreate returned, after touch, and with the answer.
pub data Pc : Type 0 where
  wants missed : Pc
  made : ℕ → Pc
  holds : ℕ → Pc
  touched : ℕ → Pc
  answered : Bool → Pc

-- a call: its key and where it stands
abbrev pub Call : Type 0
Call = String × Pc

module _ (R : RatePackage) where
  open R use {Limit, new_limiter}

  -- a write to the entry at an address
  touch_at : ℕ → ℕ → List (Entry R) → Option (Entry R) → List (Entry R)
  unfolding touch write_at
  touch_at now a heap none = heap
  touch_at now a heap (some e) = write_at R a (touch R now e) heap

  take_at : ℕ → ℕ → List (Entry R) → Option (Entry R) → List (Entry R) × Bool
  unfolding take write_at
  take_at now a heap none = (heap, false)
  take_at now a heap (some e) = let (e', allowed) = take R now e in (write_at R a e' heap, allowed)

  -- the next step of a call at the time `now`
  unfoldable pub move : ℕ → TokenBucketLimiter R → String → Pc → TokenBucketLimiter R × Pc
  unfolding touch_at take_at
  move now l key wants = elim (lookup key l.entries) [ some a ↦ (l, holds a) | none ↦ (l, missed) ]
  move now l key missed =
      let e : Entry R = record { limiter = new_limiter l.rate l.burst; last_seen = now } in
      (record l { heap = l.heap ++ e ∷ [] }, made (length l.heap))
  move now l key (made a) = elim (lookup key l.entries) [
    | some b ↦ (l, holds b)
    | none ↦ (record l { entries = store key a l.entries }, holds a)
  ]
  move now l key (holds a) =
      (record l { heap = touch_at now a l.heap (get_elem? l.heap a) }, touched a)
  move now l key (touched a) =
      let (heap, allowed) = take_at now a l.heap (get_elem? l.heap a) in
      (record l { heap = heap }, answered allowed)
  move now l key (answered b) = (l, answered b)

  -- The limiter, the calls, and the key that evictStale has found stale and not yet deleted.
  pub record System : Type 0 where
    pub limiter : TokenBucketLimiter R
    pub calls : List Call
    pub marked : Option String

  abbrev pub initial : Limit → ℕ → System
  initial r burst = record {
    limiter = new_token_bucket_limiter R r burst;
    calls = [];
    marked = none;
  }

  -- The systems that can come about, and whether nothing has been deleted on the way.
  pub data Reachable (r : Limit) (burst : ℕ) : Bool → System → Type 0 where
    start : Reachable r burst true (initial r burst)
    arrive :
        (q : Bool) (s : System) (key : String)
        → Reachable r burst q s
        → Reachable r burst q (record s { calls = s.calls ++ (key, wants) ∷ [] })
    step :
        (q : Bool) (now : ℕ) (l : TokenBucketLimiter R) (m : Option String) (front back : List Call)
        (key : String) (pc : Pc)
        → Reachable r burst q
            (record { limiter = l; calls = front ++ (key, pc) ∷ back; marked = m })
        → Reachable r burst q (record {
          limiter = (move now l key pc).0;
          calls = front ++ (key, (move now l key pc).1) ∷ back;
          marked = m;
        })
    mark :
        (q : Bool) (s : System) (now a : ℕ) (key : String)
        → Reachable r burst q s
        → lookup key s.limiter.entries ≡ some a
        → is_stale R now s.limiter.ttl (get_elem? s.limiter.heap a) ≡ true
        → Reachable r burst q (record s { marked = some key })
    sweep :
        (q : Bool) (s : System) (key : String)
        → Reachable r burst q s
        → s.marked ≡ some key
        → Reachable r burst false (record s {
          limiter = record s.limiter { entries = delete key s.limiter.entries };
          marked = none;
        })
