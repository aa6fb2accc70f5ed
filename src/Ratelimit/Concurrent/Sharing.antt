-- ===== src/Ratelimit/Concurrent/Sharing.antt =====
-- Which calls share a bucket.
use mathlib.Core.Path.{subst}
use grpcx.Common.{
  zero, suc, ℕ, ◌+◌, ◌≤◌, ◌<◌, ◌==◌, ==_iff, String, List, [], ◌∷◌, ◌++◌, ◌≡◌, refl, ◌∙◌, Option,
  none, some, lookup, store, lookup-store, if◌then◌else◌, string_equality, eq_iff, length,
  length-append, get_elem?, All, arith, Option-cases, inl, inr,
}
use grpcx.Ratelimit.{RatePackage, Entry, TokenBucketLimiter}
use grpcx.Ratelimit.Buckets.{length-write_at}
use grpcx.Ratelimit.Concurrent.{
  Pc, wants, missed, made, holds, touched, answered, Call, touch_at, take_at, move,
}

some_injective {ℓ} : {A : Type ℓ} {a b : A} → some a ≡ some b → a ≡ b
some_injective h = cc

module _ {ℓ κ} {A : Type ℓ} (P : A → Type κ) where
  pub All-at : (front back : List A) (c : A) → All P (front ++ c ∷ back) → P c
  All-at [] back c (p, h) = p
  All-at (x ∷ front) back c (p, h) = All-at front back c h

  pub All-get_elem? : (xs : List A) (i : ℕ) (x : A) → All P xs → get_elem? xs i ≡ some x → P x
  All-get_elem? [] i x h there = cc
  All-get_elem? (y ∷ xs) zero x (p, h) there = subst P (some_injective there) p
  All-get_elem? (y ∷ xs) (suc i) x (p, h) there = All-get_elem? xs i x h there

  module _ (Q : A → Type κ) where
    pub All-weaken : ((x : A) → P x → Q x) → (xs : List A) → All P xs → All Q xs
    All-weaken f [] h = tt
    All-weaken f (x ∷ xs) (p, h) = (f x p, All-weaken f xs h)

    -- Changing one element of a list.
    pub All-replace :
        ((x : A) → P x → Q x)
        → (front back : List A) (c c' : A) → All P (front ++ c ∷ back)
        → Q c'
        → All Q (front ++ c' ∷ back)
    All-replace f [] back c c' (p, h) q = (q, All-weaken f back h)
    All-replace f (x ∷ front) back c c' (p, h) q = (f x p, All-replace f front back c c' h q)

-- The entry that a call has in hand.
abbrev pub address : Pc → Option ℕ
address wants = none
address missed = none
address (made a) = some a
address (holds a) = some a
address (touched a) = some a
address (answered b) = none

module _ (R : RatePackage) where
  -- An address belongs to a key, and lies in the heap.
  abbrev pub Belongs : (ℕ → String) → ℕ → String → ℕ → Type 0
  Belongs owner n key a = (a < n) × (owner a ≡ key)

  abbrev pub Owned : (ℕ → String) → ℕ → Call → Type 0
  Owned owner n call = (a : ℕ) → address call.1 ≡ some a → Belongs owner n call.0 a

  abbrev pub MapOwned : (ℕ → String) → TokenBucketLimiter R → Type 0
  MapOwned owner l =
      (k : String) (a : ℕ) → lookup k l.entries ≡ some a → Belongs owner (length l.heap) k a

  -- What a step of one call leaves: an assignment of addresses to keys that keeps the old addresses.
  pub record Kept (owner : ℕ → String) (l : TokenBucketLimiter R) (key : String)
      (after : TokenBucketLimiter R × Pc) : Type 0 where
    pub owner' : ℕ → String
    pub grows : length l.heap ≤ length after.0.heap
    pub same : (a : ℕ) → a < length l.heap → owner' a ≡ owner a
    pub map_owned : MapOwned owner' after.0
    pub owned : Owned owner' (length after.0.heap) (key, after.1)

  -- A step that leaves the map and the length of the heap.
  still-Kept :
      (owner : ℕ → String) (l : TokenBucketLimiter R) (key : String) (heap : List (Entry R))
      (pc : Pc)
      → length heap ≡ length l.heap
      → MapOwned owner l
      → Owned owner (length l.heap) (key, pc)
      → Kept owner l key (record l { heap = heap }, pc)
  still-Kept owner l key heap pc same_length m o = record {
    owner' = owner;
    grows = omega (arith, same_length);
    same = λ a h. refl;
    map_owned = λ k a h. (omega (arith, same_length, (m k a h).0), (m k a h).1);
    owned = λ a h. (omega (arith, same_length, (o a h).0), (o a h).1);
  }

  length-touch_at :
      (now a : ℕ) (heap : List (Entry R)) (o : Option (Entry R))
      → length (touch_at R now a heap o) ≡ length heap
  unfolding touch_at
  length-touch_at now a heap none = refl
  length-touch_at now a heap (some e) = length-write_at R a _ heap

  length-take_at :
      (now a : ℕ) (heap : List (Entry R)) (o : Option (Entry R))
      → length (take_at R now a heap o).0 ≡ length heap
  unfolding take_at
  length-take_at now a heap none = refl
  length-take_at now a heap (some e) = length-write_at R a _ heap

  abbrev extended : (ℕ → String) → ℕ → String → ℕ → String
  extended owner n key a = if a == n then key else owner a

  extended-old :
      (owner : ℕ → String) (n : ℕ) (key : String) (a : ℕ) → a < n → extended owner n key a ≡ owner a
  extended-old owner n key a h = ground (arith, ==_iff a n)

  -- An entry that a call makes for itself.
  made-Kept :
      (owner : ℕ → String) (l : TokenBucketLimiter R) (key : String) (e : Entry R)
      → MapOwned owner l
      → Kept owner l key (record l { heap = l.heap ++ e ∷ [] }, made (length l.heap))
  made-Kept owner l key e m =
      let n : ℕ = length l.heap in
      let grown : length (l.heap ++ e ∷ []) ≡ n + 1 = length-append l.heap (e ∷ []) in
      record {
        owner' = extended owner n key;
        grows = omega (arith, grown);
        same = extended-old owner n key;
        map_owned = λ k a h. (
          omega (arith, grown, (m k a h).0),
          extended-old owner n key a (m k a h).0 ∙ (m k a h).1,
        );
        owned = λ a h. new_owned n key owner a (length (l.heap ++ e ∷ [])) grown h;
      }
    where
      new_owned :
          (n : ℕ) (key : String) (owner : ℕ → String) (a size : ℕ)
          → size ≡ n + 1
          → Option.some n ≡ some a
          → (a < size) × (extended owner n key a ≡ key)
      new_owned n key owner a size grown h = ground (arith, ==_iff a n)

  -- LoadOrStore that stores.
  stored-Kept :
      (owner : ℕ → String) (l : TokenBucketLimiter R) (key : String) (a : ℕ)
      → MapOwned owner l
      → Owned owner (length l.heap) (key, made a)
      → Kept owner l key (record l { entries = store key a l.entries }, holds a)
  stored-Kept owner l key a m o = record {
    owner' = owner;
    grows = omega arith;
    same = λ b h. refl;
    map_owned = λ k b h. stored k b h (o a refl);
    owned = o;
  }
    where
      stored :
          (k : String) (b : ℕ)
          → lookup k (store key a l.entries) ≡ some b
          → Belongs owner (length l.heap) key a
          → Belongs owner (length l.heap) k b
      stored k b h mine = ground (arith, lookup-store key k a l.entries, eq_iff key k, m k b)

  pub move-Kept :
      (owner : ℕ → String) (now : ℕ) (l : TokenBucketLimiter R) (key : String) (pc : Pc)
      → MapOwned owner l
      → Owned owner (length l.heap) (key, pc)
      → Kept owner l key (move R now l key pc)
  unfolding move
  move-Kept owner now l key wants m o = elim (Option-cases (lookup key l.entries)) [
    | inl missing ↦ rw (missing, move) (still-Kept owner l key l.heap missed refl m (λ a h. cc))
    | inr (a, there) ↦
        rw (there, move)
          (still-Kept owner l key l.heap (holds a) refl m (λ b h. m key b (there ∙ h)))
  ]
  move-Kept owner now l key missed m o = made-Kept owner l key _ m
  move-Kept owner now l key (made a) m o = elim (Option-cases (lookup key l.entries)) [
    | inl missing ↦ rw (missing, move) (stored-Kept owner l key a m o)
    | inr (b, there) ↦
        rw (there, move)
          (still-Kept owner l key l.heap (holds b) refl m (λ c h. m key c (there ∙ h)))
  ]
  move-Kept owner now l key (holds a) m o =
      still-Kept owner l key _ (touched a) (length-touch_at now a l.heap (get_elem? l.heap a)) m o
  move-Kept owner now l key (touched a) m o =
      still-Kept owner l key _ (answered _) (length-take_at now a l.heap (get_elem? l.heap a)) m
        (λ b h. cc)
  move-Kept owner now l key (answered b) m o = still-Kept owner l key l.heap (answered b) refl m o
