-- ===== src/Httpclient/LastCall.antt =====
-- What the last call of a kind has set on a client of httpclient/client.go.
use mathlib.Core.List.{append_assoc, append-nil}
use grpcx.Common.{
  List, [], ◌∷◌, ◌++◌, ◌≡◌, refl, ◌∙◌, ap, sym, Option, none, some, Bool, true, false,
  if◌then◌else◌,
}
use grpcx.Httpclient.{
  ClientCall, Client, ClientOption, ClientConfig, apply_options, options_of, new, derived,
  new_from_config, with_timeout, with_slog_logger,
}

abbrev pub or_else {ℓ} : {A : Type ℓ} → Option A → Option A → Option A
or_else none other = other
or_else (some a) other = some a

abbrev pub when {ℓ} : {A : Type ℓ} → Bool → A → Option A
when test a = if test then some a else none

-- What the last call of a kind has set.
abbrev pub last_set {ℓ} : {A : Type ℓ} → (ClientCall → Option A) → Client → Option A
last_set pick [] = none
last_set pick (call ∷ calls) = or_else (last_set pick calls) (pick call)

abbrev pub all_calls : List ClientOption → Client
all_calls [] = []
all_calls (o ∷ opts) = o ++ all_calls opts

module _ {ℓ} {A : Type ℓ} where
  or_else_assoc : (a b c : Option A) → or_else (or_else a b) c ≡ or_else a (or_else b c)
  or_else_assoc none b c = refl
  or_else_assoc (some a) b c = refl

  pub or_else-none : (a : Option A) → or_else a none ≡ a
  or_else-none none = refl
  or_else-none (some a) = refl

module _ {ℓ} {A : Type ℓ} (pick : ClientCall → Option A) where
  last_set-append :
      (c d : Client) → last_set pick (c ++ d) ≡ or_else (last_set pick d) (last_set pick c)
  last_set-append [] d = sym (or_else-none (last_set pick d))
  last_set-append (call ∷ c) d =
      ap (λ t. or_else t (pick call)) (last_set-append c d)
      ∙ or_else_assoc (last_set pick d) (last_set pick c) (pick call)

apply_options_lem :
    (opts : List ClientOption) (c : Client) → apply_options opts c ≡ c ++ all_calls opts
apply_options_lem [] c = sym (append-nil c)
apply_options_lem (o ∷ opts) c = apply_options_lem opts (c ++ o) ∙ append_assoc c o (all_calls opts)

all_calls-append : (os ps : List ClientOption) → all_calls (os ++ ps) ≡ all_calls os ++ all_calls ps
all_calls-append [] ps = refl
all_calls-append (o ∷ os) ps =
    ap (λ t. o ++ t) (all_calls-append os ps) ∙ sym (append_assoc o (all_calls os) (all_calls ps))

module _ {ℓ} {A : Type ℓ} (pick : ClientCall → Option A) where
  -- what an option under a test sets
  abbrev pub set_if : Bool → ClientOption → Option A
  set_if test o = if test then last_set pick o else none

  abbrev pub last_of : List (Bool × ClientOption) → Option A
  last_of [] = none
  last_of ((test, o) ∷ more) = or_else (last_of more) (set_if test o)

  last_set-options_of :
      (l : List (Bool × ClientOption)) → last_set pick (all_calls (options_of l)) ≡ last_of l
  last_set-options_of [] = refl
  last_set-options_of ((true, o) ∷ more) =
      last_set-append pick o (all_calls (options_of more))
      ∙ ap (λ t. or_else t (last_set pick o)) (last_set-options_of more)
  last_set-options_of ((false, o) ∷ more) =
      last_set-options_of more ∙ sym (or_else-none (last_of more))

  -- The explicit options win over the configuration, and that over the defaults.
  pub last_set-from_config :
      (cfg : ClientConfig) (opts : List ClientOption)
      → last_set pick (new_from_config cfg opts)
        ≡ or_else (last_set pick (all_calls opts)) (
            or_else
              (last_of (derived cfg))
              (last_set pick (with_slog_logger ++ with_timeout 30000)))
  unfolding new_from_config new
  last_set-from_config cfg opts =
      let start : Client = with_slog_logger ++ with_timeout 30000 in
      let own : List ClientOption = options_of (derived cfg) in
      ap (last_set pick) (apply_options_lem (own ++ opts) start)
      ∙ last_set-append pick start (all_calls (own ++ opts))
      ∙ ap (λ t. or_else (last_set pick t) (last_set pick start)) (all_calls-append own opts)
      ∙ ap (λ t. or_else t (last_set pick start))
          (last_set-append pick (all_calls own) (all_calls opts))
      ∙ or_else_assoc (last_set pick (all_calls opts)) (last_set pick (all_calls own))
          (last_set pick start)
      ∙ ap (λ t. or_else (last_set pick (all_calls opts)) (or_else t (last_set pick start)))
          (last_set-options_of (derived cfg))
