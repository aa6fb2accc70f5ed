-- ===== src/Ratelimit/Buckets/Allow.antt =====
-- What a call of Allow does to the view.
use mathlib.Core.Path.{subst}
use grpcx.Common.{
  true, false, str_eq, Bool-cases, inl, inr, if◌then◌else◌, eq_iff, ◌≢◌, ◌<◌, ℕ, ◌<◌, String, ◌≡◌,
  ◌≢◌, refl, ◌∙◌, ap, sym, Option, none, some, lookup, false, str_eq, string_equality, eq_iff, inl,
  inr,
}
use grpcx.Ratelimit.{
  allow, take, touch, RatePackage, Entry, TokenBucketLimiter, write_at, get_or_create,
}
use grpcx.Ratelimit.Buckets.{
  IsWellFormed, entry_at, view, bucket_of, get_or_create-Got, get_elem?-write_at_self,
  get_elem?-write_at_ne, length-write_at,
}

module _ (R : RatePackage) where
  open R use {Limit, Bucket, new_limiter, allow_bucket}

  -- A write to the entry of a key changes the view R of that key only.
  write-view :
      (l : TokenBucketLimiter R) (key j : String) (a : ℕ) (e : Entry R)
      → IsWellFormed R l
      → lookup key l.entries ≡ some a
      → view R (record l { heap = write_at R a e l.heap }) j
        ≡ (if str_eq key j then some e else view R l j)
  write-view l key j a e w h = elim (Bool-cases (str_eq key j)) [
    | inl same ↦
        let j_there : lookup j l.entries ≡ some a =
          ap (λ k. lookup k l.entries) (sym ((eq_iff key j).0 same)) ∙ h in
        rw same (
          ap (entry_at R (write_at R a e l.heap)) j_there
          ∙ get_elem?-write_at_self R a e l.heap (w.in_heap key a h))
    | inr other ↦ rw other (elsewhere (lookup j l.entries) (clash other))
  ]
    where
      clash : str_eq key j ≡ false → (b : ℕ) → lookup j l.entries ≡ some b → a ≢ b
      clash other b there p =
          let same : key ≡ j = w.one_key key j a h (there ∙ ap some (sym p)) in
          let f : true ≡ false = sym ((eq_iff key j).1 same) ∙ other in cc

      elsewhere :
          (o : Option ℕ)
          → ((b : ℕ) → o ≡ some b → a ≢ b)
          → entry_at R (write_at R a e l.heap) o ≡ entry_at R l.heap o
      elsewhere none apart = refl
      elsewhere (some b) apart = get_elem?-write_at_ne R a b e l.heap (apart b refl)

  write-IsWellFormed :
      (l : TokenBucketLimiter R) (a : ℕ) (e : Entry R)
      → IsWellFormed R l
      → IsWellFormed R (record l { heap = write_at R a e l.heap })
  write-IsWellFormed l a e w = record {
    in_heap = λ k b h. subst (λ n. b < n) (sym (length-write_at R a e l.heap)) (w.in_heap k b h);
    one_key = w.one_key;
    unique = w.unique;
  }

  -- Allow on a limiter with no dangling or shared addresses: the answer is the one of the key's
  -- bucket, or of a new bucket for a key that has none; afterwards the key has that bucket, seen now,
  -- every other key has what it had, and the addresses are still in order.
  pub allow_lem :
      (now : ℕ) (l : TokenBucketLimiter R) (key j : String)
      → IsWellFormed R l
      → let (b, allowed) = allow_bucket now (bucket_of R l key) in
        ((allow R now l key).1 ≡ allowed)
        × (view R (allow R now l key).0 j
            ≡ (if str_eq key j then some (record { limiter = b; last_seen = now }) else view R l j))
        × IsWellFormed R (allow R now l key).0
  unfolding allow take touch
  allow_lem now l key j w =
      let got = get_or_create-Got R now l key w in
      let e : Entry R = record {
        limiter = (allow_bucket now got.entry.limiter).0;
        last_seen = now;
      } in
      let l' : TokenBucketLimiter R = (get_or_create R now l key).0 in
      let a : ℕ = (get_or_create R now l key).1 in
      rw (got.at, allow)
        (
          ap (λ b. (allow_bucket now b).1) got.bucket,
          write-view l' key j a e got.well got.there ∙ elim (Bool-cases (str_eq key j)) [
            | inl same ↦ rw same (
                ap (λ b. some (record { limiter = (allow_bucket now b).0; last_seen = now }))
                  got.bucket)
            | inr other ↦ rw other (got.others j other)
          ],
          write-IsWellFormed l' a e got.well,
        )
