-- ===== src/Ratelimit/Eviction.antt =====
-- What the clean-up removes.
use grpcx.Common.{
  ℕ, String, List, [], ◌∷◌, ◌≡◌, refl, ◌∙◌, ap, sym, Option, none, some, Map, lookup, delete,
  lookup-delete, delete-HasUniqueKeys, lookup-visit, visit-HasUniqueKeys, HasUniqueKeys, RangeOrder,
  Bool, true, subst, false, if◌then◌else◌, string_equality, eq_iff, get_elem?, arith, Bool-cases,
  inl, inr,
}
use grpcx.Ratelimit.{
  RatePackage, Entry, TokenBucketLimiter, is_stale, evict_visited, evict_stale, Branch, takes_stop,
  takes_tick, cleanup_round, cleanup_loop,
}
use grpcx.Ratelimit.Buckets.{IsWellFormed, view, entry_at}

module _ (R : RatePackage) where
  abbrev evicted : ℕ → TokenBucketLimiter R → Option ℕ → Option ℕ → Option ℕ
  evicted now l none o = o
  evicted now l (some a) o = if is_stale R now l.ttl (get_elem? l.heap a) then none else o

  evicted-some :
      (now : ℕ) (l : TokenBucketLimiter R) (o : Option ℕ) (a : ℕ)
      → evicted now l o o ≡ some a
      → o ≡ some a
  evicted-some now l none a h = h
  evicted-some now l (some b) a h = ground arith

  entry_at-evicted :
      (now : ℕ) (l : TokenBucketLimiter R) (o : Option ℕ)
      → entry_at R l.heap (evicted now l o o)
        ≡ (if is_stale R now l.ttl (entry_at R l.heap o) then none else entry_at R l.heap o)
  unfolding is_stale
  entry_at-evicted now l none = refl
  entry_at-evicted now l (some a) = elim (Bool-cases (is_stale R now l.ttl (get_elem? l.heap a))) [
    | inl old ↦ rw old refl
    | inr new ↦ rw new refl
  ]

  lookup-evict_visited :
      (now : ℕ) (l : TokenBucketLimiter R) (j : String) (m : Map String ℕ)
      (visits : List (String × ℕ))
      → HasUniqueKeys visits
      → lookup j (evict_visited R now l m visits) ≡ evicted now l (lookup j visits) (lookup j m)
  unfolding evict_visited lookup
  lookup-evict_visited now l j m [] h = refl
  lookup-evict_visited now l j m ((k, a) ∷ visits) h = ground (
    arith,
    lookup-evict_visited now l j (delete k m) visits h.1,
    lookup-evict_visited now l j m visits h.1,
    lookup-delete k j m,
    eq_iff k j,
    h.0,
  )

  evict_visited-HasUniqueKeys :
      (now : ℕ) (l : TokenBucketLimiter R) (m : Map String ℕ) (visits : List (String × ℕ))
      → HasUniqueKeys m
      → HasUniqueKeys (evict_visited R now l m visits)
  unfolding evict_visited
  evict_visited-HasUniqueKeys now l m [] h = h
  evict_visited-HasUniqueKeys now l m ((k, a) ∷ visits) h =
      elim (Bool-cases (is_stale R now l.ttl (get_elem? l.heap a))) [
        | inl old ↦
            rw old
              (evict_visited-HasUniqueKeys now l (delete k m) visits (delete-HasUniqueKeys k m h))
        | inr new ↦ rw new (evict_visited-HasUniqueKeys now l m visits h)
      ]

  module _ (range : RangeOrder (String × ℕ)) where
    lookup-evict_stale :
        (now : ℕ) (l : TokenBucketLimiter R) (j : String)
        → IsWellFormed R l
        → lookup j (evict_stale R range now l).entries
          ≡ evicted now l (lookup j l.entries) (lookup j l.entries)
    unfolding evict_stale
    lookup-evict_stale now l j w =
        lookup-evict_visited now l j l.entries (range.visit l.entries)
          (visit-HasUniqueKeys range l.entries w.unique)
        ∙ ap (λ o. evicted now l o (lookup j l.entries)) (lookup-visit range j l.entries w.unique)

    evict_stale_lem :
        (now : ℕ) (l : TokenBucketLimiter R) (j : String)
        → IsWellFormed R l
        → (view R (evict_stale R range now l) j
            ≡ (if is_stale R now l.ttl (view R l j) then none else view R l j))
          × IsWellFormed R (evict_stale R range now l)
    unfolding evict_stale
    evict_stale_lem now l j w =
        let found : (k : String) (a : ℕ)
            → lookup k (evict_stale R range now l).entries ≡ some a
            → lookup k l.entries ≡ some a =
          λ k a h.
            evicted-some now l (lookup k l.entries) a (sym (lookup-evict_stale now l k w) ∙ h) in
        (
          ap (entry_at R l.heap) (lookup-evict_stale now l j w)
              ∙ entry_at-evicted now l (lookup j l.entries),
          record {
            in_heap = λ k a h. w.in_heap k a (found k a h);
            one_key = λ i k a h h'. w.one_key i k a (found i a h) (found k a h');
            unique = evict_visited-HasUniqueKeys now l l.entries (range.visit l.entries) w.unique;
          },
        )

    -- What is left of an entry after the ticks: it goes at the first one that finds it stale.
    abbrev pub survivor : ℕ → List Branch → Option (Entry R) → Option (Entry R)
    survivor ttl [] e = e
    survivor ttl (takes_stop ∷ branches) e = e
    survivor ttl (takes_tick now ∷ branches) e =
        survivor ttl branches (if is_stale R now ttl e then none else e)

    -- However the select of the clean-up chooses, also where a tick and Stop are both ready: a key is
    -- left exactly if no tick before the loop returned found it unseen for longer than the lifetime,
    -- with its bucket as it was, whatever the order of the visits. The order among the addresses
    -- stays, and the loop has returned only if Stop was called.
    pub cleanup_loop_lem :
        (branches : List Branch) (l l' : TokenBucketLimiter R) (j : String) (goes_on : Bool)
        → IsWellFormed R l
        → cleanup_loop R range branches l ≡ some (l', goes_on)
        → (view R l' j ≡ survivor l.ttl branches (view R l j))
          × IsWellFormed R l'
          × (goes_on ≡ false → l.stopped ≡ true)
    unfolding cleanup_loop cleanup_round evict_stale
    cleanup_loop_lem [] l l' j goes_on w e =
        let same : l ≡ l' = ground (arith, e) in
        (
          ap (λ t. view R t j) (sym same),
          subst (IsWellFormed R) same w,
          λ q. absurd (ground (arith, e, q)),
        )
    cleanup_loop_lem (takes_stop ∷ branches) l l' j goes_on w e = elim (Bool-cases l.stopped) [
      | inl closed ↦
          let same : l ≡ l' = ground (arith, e, closed) in
          (ap (λ t. view R t j) (sym same), subst (IsWellFormed R) same w, λ q. closed)
      | inr open_yet ↦ absurd (ground (arith, e, open_yet))
    ]
    cleanup_loop_lem (takes_tick now ∷ branches) l l' j goes_on w e =
        let f = evict_stale_lem now l j w in
        let ih = cleanup_loop_lem branches (evict_stale R range now l) l' j goes_on f.1 e in
        (ih.0 ∙ ap (survivor l.ttl branches) f.0, ih.1, ih.2)
