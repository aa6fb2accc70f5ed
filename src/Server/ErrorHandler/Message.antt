-- ===== src/Server/ErrorHandler/Message.antt =====
-- The message that a status becomes.
use mathlib.Core.Option
use grpcx.Common.{
  length, String, [], ◌∷◌, ◌≡◌, refl, Option, none, some, Map, lookup, string_equality,
}
use grpcx.Platform.{Platform, error_info}
use grpcx.Errs.{Error, entries_of, put_any, to_string_map, info_of}
use grpcx.Errs.Metadata.{
  suc-ne-zero, IsWellFormed, metadata_at, lookup-to_string_map, lookup-put_any-to_string_map,
}
use grpcx.Server.ErrorHandler.{info_values, add_details, error_message}

module _ (P : Platform) where
  open P use {Any, sprint, of_string, string_order, Status, message_of, details_of}

  info_values-lookup :
      (k : String) (info : Map String String) (o : Option Any)
      → lookup k info ≡ Option.map sprint o
      → lookup k (put_any P [] (string_order.visit info)) ≡ Option.map (λ v. of_string (sprint v)) o
      → lookup k (entries_of P (info_values P info none)) ≡ Option.map (λ v. of_string (sprint v)) o
  unfolding lookup
  info_values-lookup k [] none h g = refl
  info_values-lookup k [] (some v) h g = cc
  info_values-lookup k (t ∷ info) o h g = rw (suc-ne-zero (length info)) g

  -- What the message for an error's status says.
  pub error_message_lem :
      (domain : String) (e : Error P) (s : Status) (k : String)
      → IsWellFormed P e
      → details_of s ≡ error_info (info_of P domain e) ∷ []
      → ((error_message P s).code ≡ e.code)
        × ((error_message P s).message ≡ message_of s)
        × (lookup k (entries_of P (error_message P s).metadata)
            ≡ Option.map (λ v. of_string (sprint v)) (metadata_at P e k))
  unfolding error_message add_details
  error_message_lem domain e s k w one =
      rw (one, error_message)
        (
          refl,
          refl,
          info_values-lookup k (to_string_map P (entries_of P e.metadata)) (metadata_at P e k)
              (lookup-to_string_map P k (entries_of P e.metadata) w)
              (lookup-put_any-to_string_map P k (entries_of P e.metadata) w),
        )
