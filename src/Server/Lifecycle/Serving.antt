-- ===== src/Server/Lifecycle/Serving.antt =====
-- Runs of Server.Serve of server/server.go.
use grpcx.Common.{
  ℕ, suc, ◌+◌, ◌≤◌, List, [], ◌∷◌, ◌≡◌, ◌⊎◌, inl, inr, refl, Option, none, some, length,
  length-append, arith, ap, subst, is_some, ◌||◌, All, All-append,
}
use grpcx.Server.Lifecycle.{
  Goroutine, serving, ended, sending, after, ServeState, ServeStep, gateway_returns, grpc_returns,
  gateway_sends, grpc_sends, receives, ServeRun, start, then_step,
}

abbrev counted : {E : Type 0} → Option E → ℕ
counted none = 0
counted (some e) = 1

-- the errors that a goroutine has sent
abbrev sent : {E : Type 0} → Goroutine E → Option E → ℕ
sent serving result = 0
sent (sending e) result = 0
sent ended result = counted result

-- the steps that a goroutine still takes, with the receipt of what it sends
abbrev effort : {E : Type 0} → Goroutine E → ℕ
effort serving = 3
effort (sending e) = 2
effort ended = 0

effort-after : {E : Type 0} (result : Option E) → effort (after result) ≤ 2
unfolding after
effort-after none = omega arith
effort-after (some e) = omega arith

sent-after : {E : Type 0} (result : Option E) → sent (after result) result ≡ 0
unfolding after
sent-after none = refl
sent-after (some e) = refl

sent_le : {E : Type 0} (g : Goroutine E) (result : Option E) → sent g result ≤ 1
sent_le serving result = omega arith
sent_le (sending e) result = omega arith
sent_le ended none = omega arith
sent_le ended (some e) = omega arith

-- what a goroutine is about to send is the error of its server
abbrev IsHonest : {E : Type 0} → Goroutine E → Option E → Type 0
IsHonest serving result = Unit
IsHonest ended result = Unit
IsHonest (sending e) result = result ≡ some e

after-IsHonest : {E : Type 0} (result : Option E) → IsHonest (after result) result
unfolding after
after-IsHonest none = tt
after-IsHonest (some e) = refl

module _ {E : Type 0} (gateway_result grpc_result : Option E) where
  -- an error that one of the two servers returned
  abbrev pub FromServer : E → Type 0
  FromServer e = (gateway_result ≡ some e) ⊎ (grpc_result ≡ some e)

  abbrev AllowedReturn : Option E → Type 0
  AllowedReturn none = Unit
  AllowedReturn (some e) = FromServer e

  record IsSound (n : ℕ) (s : ServeState E) : Type 0 where
    steps_left : n + (effort s.gateway + effort s.grpc + length s.errch) ≤ 6
    no_loss :
        length s.errch + counted s.returned
        ≡ sent s.gateway gateway_result + sent s.grpc grpc_result
    gateway_honest : IsHonest s.gateway gateway_result
    grpc_honest : IsHonest s.grpc grpc_result
    channel_honest : All FromServer s.errch
    return_honest : AllowedReturn s.returned

  step-IsSound :
      (n : ℕ) (s t : ServeState E)
      → IsSound n s
      → ServeStep gateway_result grpc_result s t
      → IsSound (suc n) t
  step-IsSound n _ _ h (gateway_returns c ch r) = record {
    steps_left = omega (arith, h.steps_left, effort-after gateway_result);
    no_loss = omega (arith, h.no_loss, sent-after gateway_result);
    gateway_honest = after-IsHonest gateway_result;
    grpc_honest = h.grpc_honest;
    channel_honest = h.channel_honest;
    return_honest = h.return_honest;
  }
  step-IsSound n _ _ h (grpc_returns g ch r) = record {
    steps_left = omega (arith, h.steps_left, effort-after grpc_result);
    no_loss = omega (arith, h.no_loss, sent-after grpc_result);
    gateway_honest = h.gateway_honest;
    grpc_honest = after-IsHonest grpc_result;
    channel_honest = h.channel_honest;
    return_honest = h.return_honest;
  }
  step-IsSound n _ _ h (gateway_sends e c ch r room) =
      let q : gateway_result ≡ some e = h.gateway_honest in
      record {
        steps_left = omega (arith, h.steps_left, length-append {0} ch (e ∷ []));
        no_loss = omega (arith, h.no_loss, length-append {0} ch (e ∷ []), ap counted q);
        gateway_honest = tt;
        grpc_honest = h.grpc_honest;
        channel_honest = All-append FromServer ch (e ∷ []) h.channel_honest (inl q, tt);
        return_honest = h.return_honest;
      }
  step-IsSound n _ _ h (grpc_sends e g ch r room) =
      let q : grpc_result ≡ some e = h.grpc_honest in
      record {
        steps_left = omega (arith, h.steps_left, length-append {0} ch (e ∷ []));
        no_loss = omega (arith, h.no_loss, length-append {0} ch (e ∷ []), ap counted q);
        gateway_honest = h.gateway_honest;
        grpc_honest = tt;
        channel_honest = All-append FromServer ch (e ∷ []) h.channel_honest (inr q, tt);
        return_honest = h.return_honest;
      }
  step-IsSound n _ _ h (receives g c e ch) = record {
    steps_left = omega (arith, h.steps_left);
    no_loss = omega (arith, h.no_loss);
    gateway_honest = h.gateway_honest;
    grpc_honest = h.grpc_honest;
    channel_honest = h.channel_honest.1;
    return_honest = h.channel_honest.0;
  }

  run-IsSound : (n : ℕ) (s : ServeState E) → ServeRun gateway_result grpc_result n s → IsSound n s
  run-IsSound _ _ start = record {
    steps_left = omega arith;
    no_loss = refl;
    gateway_honest = tt;
    grpc_honest = tt;
    channel_honest = tt;
    return_honest = tt;
  }
  run-IsSound _ _ (then_step n s t run st) = step-IsSound n s t (run-IsSound n s run) st

  -- Serve has returned exactly if one of the two servers gave an error.
  abbrev pub IsDone : ServeState E → Type 0
  IsDone s = is_some s.returned ≡ (is_some gateway_result || is_some grpc_result)

  abbrev pub NextStep : ServeState E → Type 0
  NextStep s = (t : ServeState E) × ServeStep gateway_result grpc_result s t

  next :
      (n : ℕ) (g c : Goroutine E) (ch : List E) (r : Option E)
      → IsSound n (record { gateway = g; grpc = c; errch = ch; returned = r })
      → NextStep (record { gateway = g; grpc = c; errch = ch; returned = r })
        ⊎ IsDone (record { gateway = g; grpc = c; errch = ch; returned = r })
  next n serving c ch r h = inl (_, gateway_returns c ch r)
  next n (sending e) c ch r h =
      inl (_, gateway_sends e c ch r (omega (arith, h.no_loss, sent_le c grpc_result)))
  next n ended serving ch r h = inl (_, grpc_returns ended ch r)
  next n ended (sending e) ch r h =
      inl (_, grpc_sends e ended ch r (omega (arith, h.no_loss, sent_le ended gateway_result)))
  next n ended ended (e ∷ ch) none h = inl (_, receives ended ended e ch)
  next n ended ended ch (some e) h = inr (ground (arith, h.no_loss))
  next n ended ended [] none h = inr (ground (arith, h.no_loss))

  -- A run of Serve has at most six steps, whatever the order in which the servers return, the
  -- goroutines send and the caller receives, and the error that Serve returns is one that the
  -- gateway's or the gRPC server returned.
  pub ServeRun-bounded :
      (n : ℕ) (s : ServeState E)
      → ServeRun gateway_result grpc_result n s
      → (n ≤ 6) × ((e : E) → s.returned ≡ some e → FromServer e)
  ServeRun-bounded n s run =
      let h = run-IsSound n s run in
      (omega (arith, h.steps_left), λ e q. subst AllowedReturn q h.return_honest)

  -- In every run of Serve, either a next step is possible, so that no send blocks, or Serve has returned
  -- exactly if the gateway's or the gRPC server gave an error: a run that cannot go on has returned
  -- one if there was one, and blocks forever if both servers returned nil.
  pub ServeRun-progress :
      (n : ℕ) (s : ServeState E) → ServeRun gateway_result grpc_result n s → NextStep s ⊎ IsDone s
  ServeRun-progress n s run = next n s.gateway s.grpc s.errch s.returned (run-IsSound n s run)
