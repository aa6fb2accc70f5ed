-- ===== src/Rpcctx/Method.antt =====
-- The method name of an RPC.
use Prim.Native.Char.{Char}
use text.Mathlib.TextLemmas.{nil-append, cons-append}
use grpcx.Common.{String, [], ◌∷◌, ◌≡◌, refl, ◌∙◌, ap, some}
use grpcx.Common.Text.{◌+++◌, Free, split, split-two, trim_prefix, trim_prefix-append}
use grpcx.Context.{MetadataPackage, Context}
use grpcx.Rpcctx.{method_of_parts, get_method_from_context}

abbrev slash : Char
slash = "/"

module _ (M : MetadataPackage) where
  -- For an RPC "/service/name", where neither part holds a slash, the method is the name.
  pub get_method_from_context_lem :
      (ctx : Context M) (service name : String)
      → Free b'/' service
      → Free b'/' name
      → ctx.full_method ≡ some ("/" +++ service +++ "/" +++ name)
      → get_method_from_context M ctx ≡ name
  unfolding get_method_from_context method_of_parts
  get_method_from_context_lem ctx service name no_slash no_slash' full =
      rw (full, get_method_from_context)
        (ap (method_of_parts M ("/" +++ service +++ "/" +++ name)) parts)
    where
      parts : split (trim_prefix ("/" +++ service +++ "/" +++ name) "/") b'/' ≡ service ∷ name ∷ []
      parts =
          ap (λ t. split t b'/') (trim_prefix-append "/" (service +++ "/" +++ name))
          ∙ ap (λ t. split (service +++ t) b'/')
              (cons-append slash "" name ∙ ap (λ t. String.◌∷◌ slash t) (nil-append name))
          ∙ split-two b'/' service slash name no_slash no_slash' refl
