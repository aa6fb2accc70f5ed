-- ===== src/Rpcctx/Tests.antt =====
-- Instances of the theorems on request metadata.
use Prim.Native.Char.{Char}
use Prim.Native.Char.{code}
use grpcx.Common.{
  ap, str_eq, ℕ, arith, Bool, true, false, not, ◌&&◌, ◌==◌, String, ◌≡◌, ◌≢◌, refl, some,
  string_equality,
}
use grpcx.Common.Text.{is_space, Free, Solid, ◌+++◌}
use grpcx.Rpcctx.{header_request_id, md_key_http_method}
use grpcx.Samples.{background, Ctx}

-- Whether a text is free of a character, as a test, so that a concrete text can be run.
abbrev is_free : ℕ → String → Bool
is_free sep String.[] = true
is_free sep (String.◌∷◌ c s) = not (code c == sep) && is_free sep s

is_free-Free : (sep : ℕ) (s : String) → is_free sep s ≡ true → Free sep s
is_free-Free sep String.[] h = tt
is_free-Free sep (String.◌∷◌ c s) h = (ground arith, is_free-Free sep s (ground arith))

abbrev same : Char → Char
same c = c

de_is_Solid : Solid "de"
unfolding is_space
de_is_Solid = (refl, (refl, tt))

abbrev call : Ctx
call = record background { full_method = some ("/" +++ "shop.Cart" +++ "/" +++ "Add") }

keys_differ : header_request_id ≢ md_key_http_method
keys_differ h = (let f : true ≡ false = ap (λ s. str_eq s header_request_id) h in cc)
