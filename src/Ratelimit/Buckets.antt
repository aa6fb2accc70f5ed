-- ===== src/Ratelimit/Buckets.antt =====
-- The limiter as a map from keys to buckets: an abstract view of the heap of entries.
pub mod Allow
use mathlib.Core.Path.{subst}
use grpcx.Common.{
  true, false, str_eq, Bool-cases, inl, inr, if◌then◌else◌, eq_iff, ◌≢◌, ◌<◌, ℕ, zero, suc, ◌+◌,
  ◌<◌, String, List, [], ◌∷◌, ◌++◌, ◌≡◌, ◌≢◌, refl, ◌∙◌, ap, sym, Option, none, some, lookup, store,
  lookup-store, store-HasUniqueKeys, HasUniqueKeys, false, str_eq, string_equality, eq_iff, length,
  length-append, get_elem?, arith, Option-cases, inl, inr,
}
use grpcx.Ratelimit.{
  allow, take, touch, RatePackage, Entry, TokenBucketLimiter, write_at, get_or_create,
  new_token_bucket_limiter,
}

module _ {ℓ} {A : Type ℓ} where
  get_elem?-lt : (xs : List A) (i : ℕ) → i < length xs → (x : A) × (get_elem? xs i ≡ some x)
  get_elem?-lt [] i h = absurd (omega (arith, h))
  get_elem?-lt (x ∷ xs) zero h = (x, refl)
  get_elem?-lt (x ∷ xs) (suc i) h = get_elem?-lt xs i (omega (arith, h))

  get_elem?-append :
      (xs ys : List A) (i : ℕ) → i < length xs → get_elem? (xs ++ ys) i ≡ get_elem? xs i
  get_elem?-append [] ys i h = absurd (omega (arith, h))
  get_elem?-append (x ∷ xs) ys zero h = refl
  get_elem?-append (x ∷ xs) ys (suc i) h = get_elem?-append xs ys i (omega (arith, h))

  get_elem?-length : (xs : List A) (y : A) → get_elem? (xs ++ y ∷ []) (length xs) ≡ some y
  get_elem?-length [] y = refl
  get_elem?-length (x ∷ xs) y = get_elem?-length xs y

module _ (R : RatePackage) where
  open R use {Limit, Bucket, new_limiter, allow_bucket}

  pub length-write_at :
      (a : ℕ) (e : Entry R) (h : List (Entry R)) → length (write_at R a e h) ≡ length h
  unfolding write_at
  length-write_at a e [] = refl
  length-write_at zero e (x ∷ h) = refl
  length-write_at (suc a) e (x ∷ h) = ap suc (length-write_at a e h)

  get_elem?-write_at_self :
      (a : ℕ) (e : Entry R) (h : List (Entry R))
      → a < length h
      → get_elem? (write_at R a e h) a ≡ some e
  unfolding write_at
  get_elem?-write_at_self a e [] k = absurd (omega (arith, k))
  get_elem?-write_at_self zero e (x ∷ h) k = refl
  get_elem?-write_at_self (suc a) e (x ∷ h) k = get_elem?-write_at_self a e h (omega (arith, k))

  get_elem?-write_at_ne :
      (a b : ℕ) (e : Entry R) (h : List (Entry R))
      → a ≢ b
      → get_elem? (write_at R a e h) b ≡ get_elem? h b
  unfolding write_at
  get_elem?-write_at_ne a b e [] k = refl
  get_elem?-write_at_ne zero zero e (x ∷ h) k = absurd (k refl)
  get_elem?-write_at_ne zero (suc b) e (x ∷ h) k = refl
  get_elem?-write_at_ne (suc a) zero e (x ∷ h) k = refl
  get_elem?-write_at_ne (suc a) (suc b) e (x ∷ h) k =
      get_elem?-write_at_ne a b e h (λ p. k (ap suc p))

  -- No dangling address, one key for each address, and one address for each key.
  pub record IsWellFormed (l : TokenBucketLimiter R) : Type 0 where
    pub in_heap : (k : String) (a : ℕ) → lookup k l.entries ≡ some a → a < length l.heap
    pub one_key :
        (j k : String) (a : ℕ) → lookup j l.entries ≡ some a → lookup k l.entries ≡ some a → j ≡ k
    pub unique : HasUniqueKeys l.entries

  abbrev pub entry_at : List (Entry R) → Option ℕ → Option (Entry R)
  entry_at heap none = none
  entry_at heap (some a) = get_elem? heap a

  -- The entry of a key.
  abbrev pub view : TokenBucketLimiter R → String → Option (Entry R)
  view l k = entry_at l.heap (lookup k l.entries)

  abbrev pub bucket_from : TokenBucketLimiter R → Option (Entry R) → Bucket
  bucket_from l none = new_limiter l.rate l.burst
  bucket_from l (some e) = e.limiter

  -- The bucket that a call for a key draws from: its own, or a new one.
  abbrev pub bucket_of : TokenBucketLimiter R → String → Bucket
  bucket_of l key = bucket_from l (view l key)

  pub new-IsWellFormed : (r : Limit) (burst : ℕ) → IsWellFormed (new_token_bucket_limiter R r burst)
  unfolding new_token_bucket_limiter lookup
  new-IsWellFormed r burst = record {
    in_heap = λ k a h. cc;
    one_key = λ j k a h h'. cc;
    unique = tt;
  }

  -- What getOrCreate gives for a key: an address that the map has for it, whose entry has the bucket
  -- of the key; the entries of other keys stay.
  record Got (l : TokenBucketLimiter R) (key : String) (got : TokenBucketLimiter R × ℕ)
      : Type 0 where
    there : lookup key got.0.entries ≡ some got.1
    entry : Entry R
    at : get_elem? got.0.heap got.1 ≡ some entry
    bucket : entry.limiter ≡ bucket_of l key
    others : (j : String) → str_eq key j ≡ false → view got.0 j ≡ view l j
    well : IsWellFormed got.0

  abbrev created : ℕ → TokenBucketLimiter R → String → TokenBucketLimiter R × ℕ
  created now l key = (
    record l {
      heap = l.heap ++ record { limiter = new_limiter l.rate l.burst; last_seen = now } ∷ [];
      entries = store key (length l.heap) l.entries;
    },
    length l.heap,
  )

  found-Got :
      (l : TokenBucketLimiter R) (key : String) (a : ℕ)
      → IsWellFormed l
      → lookup key l.entries ≡ some a
      → Got l key (l, a)
  found-Got l key a w h =
      let (e, at) = get_elem?-lt l.heap a (w.in_heap key a h) in
      record {
        there = h;
        entry = e;
        at = at;
        bucket = sym (ap (bucket_from l) (ap (entry_at l.heap) h ∙ at));
        others = λ j other. refl;
        well = w;
      }

  entry_at-append :
      (l : TokenBucketLimiter R) (e : Entry R) (o : Option ℕ)
      → ((a : ℕ) → o ≡ some a → a < length l.heap)
      → entry_at (l.heap ++ e ∷ []) o ≡ entry_at l.heap o
  entry_at-append l e none h = refl
  entry_at-append l e (some a) h = get_elem?-append l.heap (e ∷ []) a (h a refl)

  lookup_in_grown :
      (l : TokenBucketLimiter R) (key k : String) (a : ℕ)
      → IsWellFormed l
      → lookup k (store key (length l.heap) l.entries) ≡ some a
      → a < length l.heap + 1
  lookup_in_grown l key k a w h =
      ground (arith, lookup-store key k (length l.heap) l.entries, w.in_heap k a)

  created-IsWellFormed :
      (now : ℕ) (l : TokenBucketLimiter R) (key : String)
      → IsWellFormed l
      → IsWellFormed (created now l key).0
  created-IsWellFormed now l key w =
      let n : ℕ = length l.heap in
      let e : Entry R = record { limiter = new_limiter l.rate l.burst; last_seen = now } in
      let grown : length (l.heap ++ e ∷ []) ≡ n + 1 = length-append l.heap (e ∷ []) in
      record {
        in_heap = λ k a h. subst (λ m. a < m) (sym grown) (lookup_in_grown l key k a w h);
        one_key = λ j k a h h'. ground (
          arith,
          lookup-store key j n l.entries,
          lookup-store key k n l.entries,
          eq_iff key j,
          eq_iff key k,
          w.one_key j k a,
          w.in_heap j a,
          w.in_heap k a,
        );
        unique = store-HasUniqueKeys key n l.entries w.unique;
      }

  created-Got :
      (now : ℕ) (l : TokenBucketLimiter R) (key : String)
      → IsWellFormed l
      → lookup key l.entries ≡ none
      → Got l key (created now l key)
  created-Got now l key w h =
      let e : Entry R = record { limiter = new_limiter l.rate l.burst; last_seen = now } in
      let n : ℕ = length l.heap in
      record {
        there = ground (arith, lookup-store key key n l.entries, eq_iff key key);
        entry = e;
        at = get_elem?-length l.heap e;
        bucket = sym (ap (bucket_from l) (ap (entry_at l.heap) h));
        others = λ j other.
            ap (entry_at (l.heap ++ e ∷ [])) (lookup-store key j n l.entries ∙ rw other refl)
            ∙ entry_at-append l e (lookup j l.entries) (w.in_heap j);
        well = created-IsWellFormed now l key w;
      }

  get_or_create-Got :
      (now : ℕ) (l : TokenBucketLimiter R) (key : String)
      → IsWellFormed l
      → Got l key (get_or_create R now l key)
  unfolding get_or_create
  get_or_create-Got now l key w = elim (Option-cases (lookup key l.entries)) [
    | inl missing ↦ rw (missing, get_or_create) (created-Got now l key w missing)
    | inr (a, there) ↦ rw (there, get_or_create) (found-Got l key a w there)
  ]
