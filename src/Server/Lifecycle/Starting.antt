-- ===== src/Server/Lifecycle/Starting.antt =====
-- Runs of Server.Start of server/server.go.
use mathlib.Core.List.{append-nil}
use grpcx.Common.{
  ℕ, zero, suc, ◌*◌, ◌+◌, ◌≤◌, List, [], ◌∷◌, ◌++◌, ◌≡◌, ◌⊎◌, inl, inr, refl, ap, Option, none,
  some, arith, Bool, true, false, ◌∙◌, sym, subst,
}
use grpcx.Server.Lifecycle.{
  Goroutine, serving, ended, sending, after, count_after, StartState, StartStep, gateway_stops,
  grpc_stops, gateway_logs, grpc_logs, waits, StartRun, begun, then_next,
}

abbrev active : {E : Type 0} → Goroutine E → ℕ
active serving = 1
active (sending e) = 1
active ended = 0

abbrev left : {E : Type 0} → Goroutine E → ℕ
left serving = 2
left (sending e) = 1
left ended = 0

abbrev to_wait : Bool → ℕ
to_wait true = 0
to_wait false = 1

-- the error that the server of a goroutine gave, once it has logged it
abbrev pub errors_of : {E : Type 0} → Option E → List E
errors_of none = []
errors_of (some e) = e ∷ []

abbrev contribution : {E : Type 0} → Goroutine E → Option E → List E
contribution serving result = []
contribution (sending e) result = []
contribution ended result = errors_of result

abbrev IsHonest : {E : Type 0} → Goroutine E → Option E → Type 0
IsHonest serving result = Unit
IsHonest ended result = Unit
IsHonest (sending e) result = result ≡ some e

-- The errors of the two servers, in one order or the other.
abbrev pub AreLogged : {E : Type 0} → List E → List E → List E → Type 0
AreLogged l of_gateway of_grpc = (l ≡ of_gateway ++ of_grpc) ⊎ (l ≡ of_grpc ++ of_gateway)

append-AreLogged :
    {E : Type 0} (l c errs : List E) → AreLogged l [] c → AreLogged (l ++ errs) errs c
append-AreLogged l c errs (inl q) = inr (ap (λ t. t ++ errs) q)
append-AreLogged l c errs (inr q) = inr (ap (λ t. t ++ errs) (q ∙ append-nil c))

swap-AreLogged : {E : Type 0} (l a b : List E) → AreLogged l a b → AreLogged l b a
swap-AreLogged l a b (inl q) = inr q
swap-AreLogged l a b (inr q) = inl q

-- What a server's return changes for its goroutine.
after_lem :
    {E : Type 0} (result : Option E) (n : ℕ)
    → 1 ≤ n
    → (left (after result) ≤ 1)
      × (active (after result) ≤ 1)
      × (count_after result n + 1 ≡ n + active (after result))
      × IsHonest (after result) result
      × (contribution (after result) result ≡ [])
unfolding after
after_lem none n h = (omega arith, omega arith, omega arith, tt, refl)
after_lem (some e) n h = (omega arith, omega arith, omega arith, refl, refl)

ended_of : {E : Type 0} (g : Goroutine E) → active g ≡ 0 → g ≡ ended
ended_of serving h = absurd (omega (arith, h))
ended_of (sending e) h = absurd (omega (arith, h))
ended_of ended h = refl

module _ {E : Type 0} (gateway_result grpc_result : Option E) where
  record IsSound (n : ℕ) (s : StartState E) : Type 0 where
    steps_left : n + (left s.gateway + left s.grpc + to_wait s.done) ≤ 5
    counter : s.waiting ≡ active s.gateway + active s.grpc
    gateway_honest : IsHonest s.gateway gateway_result
    grpc_honest : IsHonest s.grpc grpc_result
    all_logged :
        AreLogged s.logged (contribution s.gateway gateway_result) (contribution s.grpc grpc_result)
    wait_over : active s.gateway + active s.grpc ≤ 2 * to_wait s.done

  step-IsSound :
      (n : ℕ) (s t : StartState E)
      → IsSound n s
      → StartStep gateway_result grpc_result s t
      → IsSound (suc n) t
  step-IsSound n _ _ h (gateway_stops c l w d) =
      let f = after_lem gateway_result w (omega (arith, h.counter)) in
      record {
        steps_left = omega (arith, h.steps_left, f.0);
        counter = omega (arith, h.counter, f.2);
        gateway_honest = f.3;
        grpc_honest = h.grpc_honest;
        all_logged =
            subst (λ t. AreLogged l t (contribution c grpc_result)) (sym (f.4)) h.all_logged;
        wait_over = omega (arith, h.wait_over, f.1);
      }
  step-IsSound n _ _ h (grpc_stops g l w d) =
      let f = after_lem grpc_result w (omega (arith, h.counter)) in
      record {
        steps_left = omega (arith, h.steps_left, f.0);
        counter = omega (arith, h.counter, f.2);
        gateway_honest = h.gateway_honest;
        grpc_honest = f.3;
        all_logged = subst (AreLogged l (contribution g gateway_result)) (sym (f.4)) h.all_logged;
        wait_over = omega (arith, h.wait_over, f.1);
      }
  step-IsSound n _ _ h (gateway_logs e c l w d) =
      let grpc_errors : List E = contribution c grpc_result in
      record {
        steps_left = omega (arith, h.steps_left);
        counter = omega (arith, h.counter);
        gateway_honest = tt;
        grpc_honest = h.grpc_honest;
        all_logged =
            subst (λ t. AreLogged (l ++ e ∷ []) (errors_of t) grpc_errors) (sym h.gateway_honest)
              (append-AreLogged l grpc_errors (e ∷ []) h.all_logged);
        wait_over = omega (arith, h.wait_over);
      }
  step-IsSound n _ _ h (grpc_logs e g l w d) =
      let gateway_errors : List E = contribution g gateway_result in
      record {
        steps_left = omega (arith, h.steps_left);
        counter = omega (arith, h.counter);
        gateway_honest = h.gateway_honest;
        grpc_honest = tt;
        all_logged =
            subst (λ t. AreLogged (l ++ e ∷ []) gateway_errors (errors_of t)) (sym h.grpc_honest)
              (swap-AreLogged (l ++ e ∷ []) (e ∷ []) gateway_errors (
                append-AreLogged l gateway_errors (e ∷ [])
                  (swap-AreLogged l gateway_errors [] h.all_logged)));
        wait_over = omega (arith, h.wait_over);
      }
  step-IsSound n _ _ h (waits g c l) = record {
    steps_left = omega (arith, h.steps_left);
    counter = h.counter;
    gateway_honest = h.gateway_honest;
    grpc_honest = h.grpc_honest;
    all_logged = h.all_logged;
    wait_over = omega (arith, h.counter);
  }

  run-IsSound : (n : ℕ) (s : StartState E) → StartRun gateway_result grpc_result n s → IsSound n s
  run-IsSound _ _ begun = record {
    steps_left = omega arith;
    counter = refl;
    gateway_honest = tt;
    grpc_honest = tt;
    all_logged = inl refl;
    wait_over = omega arith;
  }
  run-IsSound _ _ (then_next n s t run st) = step-IsSound n s t (run-IsSound n s run) st

  -- What holds when Start has returned: both servers have, and their errors are logged.
  abbrev pub IsOver : StartState E → Type 0
  IsOver s =
      (s.gateway ≡ ended)
      × (s.grpc ≡ ended)
      × AreLogged s.logged (errors_of gateway_result) (errors_of grpc_result)

  over :
      (n : ℕ) (g c : Goroutine E) (l : List E) (w : ℕ)
      → IsSound n (record { gateway = g; grpc = c; logged = l; waiting = w; done = true })
      → IsOver (record { gateway = g; grpc = c; logged = l; waiting = w; done = true })
  over n serving c l w h = absurd (omega (arith, h.wait_over))
  over n (sending e) c l w h = absurd (omega (arith, h.wait_over))
  over n ended serving l w h = absurd (omega (arith, h.wait_over))
  over n ended (sending e) l w h = absurd (omega (arith, h.wait_over))
  over n ended ended l w h = (refl, refl, h.all_logged)

  abbrev pub NextStep : StartState E → Type 0
  NextStep s = (t : StartState E) × StartStep gateway_result grpc_result s t

  next :
      (n : ℕ) (g c : Goroutine E) (l : List E) (w : ℕ) (d : Bool)
      → IsSound n (record { gateway = g; grpc = c; logged = l; waiting = w; done = d })
      → NextStep (record { gateway = g; grpc = c; logged = l; waiting = w; done = d }) ⊎ (d ≡ true)
  next n g c l w true h = inr refl
  next n serving c l w false h = inl (_, gateway_stops c l w false)
  next n (sending e) c l w false h = inl (_, gateway_logs e c l w false)
  next n ended serving l w false h = inl (_, grpc_stops ended l w false)
  next n ended (sending e) l w false h = inl (_, grpc_logs e ended l w false)
  next n ended ended l zero false h = inl (_, waits ended ended l)
  next n ended ended l (suc w) false h = absurd (omega (arith, h.counter))

  returned_lem :
      (n : ℕ) (g c : Goroutine E) (l : List E) (w : ℕ) (d : Bool)
      → IsSound n (record { gateway = g; grpc = c; logged = l; waiting = w; done = d })
      → d ≡ true
      → IsOver (record { gateway = g; grpc = c; logged = l; waiting = w; done = d })
  returned_lem n g c l w true h q = over n g c l w h
  returned_lem n g c l w false h q = absurd (cc)

  -- Start returns in every run that goes on while it can, after at most five steps: a run that can take
  -- no step has returned. When Start has returned, both servers have ended, and what was logged are
  -- the errors that they gave, each once, in the order in which they were logged.
  pub StartRun-progress :
      (n : ℕ) (s : StartState E)
      → StartRun gateway_result grpc_result n s
      → (n ≤ 5) × (NextStep s ⊎ (s.done ≡ true)) × (s.done ≡ true → IsOver s)
  StartRun-progress n s run =
      let h = run-IsSound n s run in
      (
        omega (arith, h.steps_left),
        next n s.gateway s.grpc s.logged s.waiting s.done h,
        returned_lem n s.gateway s.grpc s.logged s.waiting s.done h,
      )
