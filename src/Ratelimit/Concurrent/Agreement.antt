-- ===== src/Ratelimit/Concurrent/Agreement.antt =====
-- Calls for one key share its entry, as long as nothing is deleted.
use grpcx.Common.{
  ℕ, String, [], ◌∷◌, ◌≡◌, refl, ◌∙◌, Option, none, some, lookup, store, lookup-store, Bool, true,
  string_equality, eq_iff, get_elem?, All, All-append, arith, Option-cases, inl, inr,
}
use grpcx.Ratelimit.{RatePackage, TokenBucketLimiter}
use grpcx.Ratelimit.Concurrent.{
  Pc, wants, missed, made, holds, touched, answered, Call, move, System, Reachable, start, arrive,
  step, mark, sweep,
}
use grpcx.Ratelimit.Concurrent.Sharing.{All-at, All-replace, All-get_elem?}

-- The entry that getOrCreate returned to a call.
abbrev pub returned : Pc → Option ℕ
returned (holds a) = some a
returned (touched a) = some a
returned _ = none

module _ (R : RatePackage) where
  abbrev InMap : TokenBucketLimiter R → Call → Type 0
  InMap l call = (a : ℕ) → returned call.1 ≡ some a → lookup call.0 l.entries ≡ some a

  -- A step deletes nothing, and what a call has is in the map.
  record Agrees (l : TokenBucketLimiter R) (key : String) (after : TokenBucketLimiter R × Pc)
      : Type 0 where
    keeps : (k : String) (a : ℕ) → lookup k l.entries ≡ some a → lookup k after.0.entries ≡ some a
    in_map : InMap after.0 (key, after.1)

  stored-Agrees :
      (l : TokenBucketLimiter R) (key : String) (a : ℕ)
      → lookup key l.entries ≡ none
      → Agrees l key (record l { entries = store key a l.entries }, holds a)
  stored-Agrees l key a missing = record {
    keeps = λ k b h. kept k b h;
    in_map = λ b h. lookup-store key key a l.entries ∙ ground (arith, eq_iff key key);
  }
    where
      kept :
          (k : String) (b : ℕ)
          → lookup k l.entries ≡ some b
          → lookup k (store key a l.entries) ≡ some b
      kept k b h = ground (arith, lookup-store key k a l.entries, eq_iff key k)

  move-Agrees :
      (now : ℕ) (l : TokenBucketLimiter R) (key : String) (pc : Pc)
      → InMap l (key, pc)
      → Agrees l key (move R now l key pc)
  unfolding move
  move-Agrees now l key wants m = elim (Option-cases (lookup key l.entries)) [
    | inl missing ↦ rw (missing, move) (record { keeps = λ k a h. h; in_map = λ a h. cc })
    | inr (a, there) ↦ rw (there, move) (record { keeps = λ k b h. h; in_map = λ b h. there ∙ h })
  ]
  move-Agrees now l key missed m = record { keeps = λ k a h. h; in_map = λ a h. cc }
  move-Agrees now l key (made a) m = elim (Option-cases (lookup key l.entries)) [
    | inl missing ↦ rw (missing, move) (stored-Agrees l key a missing)
    | inr (b, there) ↦ rw (there, move) (record { keeps = λ k c h. h; in_map = λ c h. there ∙ h })
  ]
  move-Agrees now l key (holds a) m = record { keeps = λ k b h. h; in_map = m }
  move-Agrees now l key (touched a) m = record { keeps = λ k b h. h; in_map = λ b h. cc }
  move-Agrees now l key (answered b) m = record { keeps = λ k a h. h; in_map = m }

  Reachable-InMap :
      (r : R.Limit) (burst : ℕ) (q : Bool) (s : System R)
      → Reachable R r burst q s
      → q ≡ true
      → All (InMap s.limiter) s.calls
  Reachable-InMap r burst _ _ start e = tt
  Reachable-InMap r burst _ _ (arrive q t key reached) e =
      All-append _ t.calls ((key, wants) ∷ []) (Reachable-InMap r burst q t reached e)
        (λ a h. cc, tt)
  Reachable-InMap r burst _ _ (step q now l m front back key pc reached) e =
      let calls = Reachable-InMap r burst q _ reached e in
      let k = move-Agrees now l key pc (All-at (InMap l) front back (key, pc) calls) in
      All-replace (InMap l) (InMap (move R now l key pc).0) (λ c o a h. k.keeps c.0 a (o a h)) front
        back (key, pc) (key, (move R now l key pc).1) calls k.in_map
  Reachable-InMap r burst _ _ (mark q t now a key reached there old) e =
      Reachable-InMap r burst q t reached e
  Reachable-InMap r burst _ _ (sweep q t key reached marked) e = absurd (cc)

  -- Until the clean-up deletes an entry, all calls for a key get the same entry from getOrCreate,
  -- however they interleave: where several of them find the map without the key and make an entry of
  -- their own, LoadOrStore settles on one of these for all of them.
  pub Reachable-one_entry :
      (r : R.Limit) (burst : ℕ) (s : System R) (i j a b : ℕ) (key : String) (pc pc' : Pc)
      → Reachable R r burst true s
      → get_elem? s.calls i ≡ some (key, pc)
      → get_elem? s.calls j ≡ some (key, pc')
      → returned pc ≡ some a
      → returned pc' ≡ some b
      → a ≡ b
  Reachable-one_entry r burst s i j a b key pc pc' reached first second h h' =
      let calls = Reachable-InMap r burst true s reached refl in
      let one = All-get_elem? (InMap s.limiter) s.calls i (key, pc) calls first a h in
      let two = All-get_elem? (InMap s.limiter) s.calls j (key, pc') calls second b h' in
      cc (one, two)
