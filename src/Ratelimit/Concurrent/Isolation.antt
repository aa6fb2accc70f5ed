-- ===== src/Ratelimit/Concurrent/Isolation.antt =====
-- Calls for different keys never have the same entry in hand.
use grpcx.Common.{
  ℕ, String, [], ◌∷◌, ◌≡◌, ◌∙◌, sym, some, lookup, delete, lookup-delete, Bool, string_equality,
  length, get_elem?, All, All-append, arith,
}
use grpcx.Ratelimit.{RatePackage, TokenBucketLimiter, new_token_bucket_limiter}
use grpcx.Ratelimit.Concurrent.{
  Pc, wants, Call, move, System, Reachable, start, arrive, step, mark, sweep,
}
use grpcx.Ratelimit.Concurrent.Sharing.{
  address, Owned, MapOwned, move-Kept, All-at, All-replace, All-get_elem?,
}

module _ (R : RatePackage) where
  -- Every address in the map and every address in the hand of a call belongs to one key.
  record Invariant (s : System R) : Type 0 where
    owner : ℕ → String
    map_owned : MapOwned R owner s.limiter
    calls_owned : All (Owned R owner (length s.limiter.heap)) s.calls

  Reachable-Invariant :
      (r : R.Limit) (burst : ℕ) (q : Bool) (s : System R) → Reachable R r burst q s → Invariant s
  Reachable-Invariant r burst _ _ start = record {
    owner = λ a. "";
    map_owned = unfold new_token_bucket_limiter lookup in (λ k a h. cc);
    calls_owned = tt;
  }
  Reachable-Invariant r burst _ _ (arrive q t key reached) =
      let i = Reachable-Invariant r burst q t reached in
      record {
        owner = i.owner;
        map_owned = i.map_owned;
        calls_owned = All-append _ t.calls ((key, wants) ∷ []) i.calls_owned (λ a h. cc, tt);
      }
  Reachable-Invariant r burst _ _ (step q now l m front back key pc reached) =
      let i = Reachable-Invariant r burst q _ reached in
      let mine = All-at (Owned R i.owner (length l.heap)) front back (key, pc) i.calls_owned in
      let k = move-Kept R i.owner now l key pc i.map_owned mine in
      record {
        owner = k.owner';
        map_owned = k.map_owned;
        calls_owned =
            All-replace (Owned R i.owner (length l.heap))
              (Owned R k.owner' (length (move R now l key pc).0.heap))
              (λ c o a h. (omega (arith, k.grows, (o a h).0), k.same a (o a h).0 ∙ (o a h).1)) front
              back (key, pc) (key, (move R now l key pc).1) i.calls_owned k.owned;
      }
  Reachable-Invariant r burst _ _ (mark q t now a key reached there old) =
      let i = Reachable-Invariant r burst q t reached in
      record { owner = i.owner; map_owned = i.map_owned; calls_owned = i.calls_owned }
  Reachable-Invariant r burst _ _ (sweep q t key reached marked) =
      let i = Reachable-Invariant r burst q t reached in
      record {
        owner = i.owner;
        map_owned = λ k a h. i.map_owned k a (was_there k a t.limiter h);
        calls_owned = i.calls_owned;
      }
    where
      was_there :
          (k : String) (a : ℕ) (l : TokenBucketLimiter R)
          → lookup k (delete key l.entries) ≡ some a
          → lookup k l.entries ≡ some a
      was_there k a l h = ground (arith, lookup-delete key k l.entries)

  -- However the calls and the clean-up interleave, two calls that have the same entry in hand are
  -- calls for the same key: no request counts against the bucket of another key.
  pub Reachable-one_key :
      (r : R.Limit) (burst : ℕ) (q : Bool) (s : System R) (i j a : ℕ) (key key' : String)
      (pc pc' : Pc)
      → Reachable R r burst q s
      → get_elem? s.calls i ≡ some (key, pc)
      → get_elem? s.calls j ≡ some (key', pc')
      → address pc ≡ some a
      → address pc' ≡ some a
      → key ≡ key'
  Reachable-one_key r burst q s i j a key key' pc pc' reached first second h h' =
      let v = Reachable-Invariant r burst q s reached in
      let P : Call → Type 0 = Owned R v.owner (length s.limiter.heap) in
      sym (All-get_elem? P s.calls i (key, pc) v.calls_owned first a h).1
      ∙ (All-get_elem? P s.calls j (key', pc') v.calls_owned second a h').1
