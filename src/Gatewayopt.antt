-- ===== src/Gatewayopt.antt =====
-- grpc/gatewayopt/gatewayopt.go: redirects by gRPC metadata, and bodies that are forms.
mod Tests
use grpcx.Common.{
  ℕ, ◌<◌, String, List, [], ◌∷◌, ◌≡◌, refl, Option, none, some, Bool, true, false, if◌then◌else◌,
  ◌&&◌, ltb, arith, ap, Option-cases, inl, inr,
}
use grpcx.Common.Integers.{ℤ, pos, negsuc}
use grpcx.Common.Result.{Result, success, failure, Result-cases}
use grpcx.Http.{HttpHeader, header_set, ResponseWriter, write_header, first_status}

-- `code > 300 && code < 400`
abbrev pub is_redirect_code : ℤ → Bool
is_redirect_code (pos code) = ltb 300 code && ltb code 400
is_redirect_code (negsuc n) = false

abbrev nat_of : ℤ → ℕ
nat_of (pos code) = code
nat_of (negsuc n) = 0

-- The metadata's values under "redirect" and "redirect-code", `none` where the context has none.
module _ {E : Type 0} (canonical : String → String) (atoi : String → Result E ℤ) where
  with_code : ResponseWriter → List String → ResponseWriter × Option E
  with_code w [] = (write_header w 301, none)
  with_code w (v ∷ vals) = elim (atoi v) [
    | failure e ↦ (w, some e)
    | success code ↦
        let w' = if is_redirect_code code then write_header w (nat_of code) else w in
        (write_header w' 301, none)
  ]

  -- the function of Redirect: the response and the error
  unfoldable pub redirect :
      Option (List String × List String) → ResponseWriter → ResponseWriter × Option E
  unfolding with_code write_header header_set
  redirect none w = (w, none)
  redirect (some ([], codes)) w = (w, none)
  redirect (some (location ∷ more, codes)) w =
      let w' = record w {
        response_header = header_set canonical w.response_header "Location" location;
      } in
      with_code w' codes

  -- the status of a redirect: the code that is asked for, if it is between 301 and 399, otherwise 301
  abbrev pub redirect_status : ℤ → ℕ
  redirect_status code = if is_redirect_code code then nat_of code else 301

  -- A response on which no status has been sent is redirected exactly if the metadata has a location:
  -- that becomes the header Location, and the status is 301, or the code of the metadata if that is a
  -- number between 301 and 399, although the second WriteHeader always asks for 301. A code that is
  -- no number is an error and sends nothing. Without metadata, or without a location, the response
  -- is left as it was.
  pub redirect_lem :
      (w : ResponseWriter) (location : String) (more codes : List String)
      → w.sent_status ≡ none
      → let header = header_set canonical w.response_header "Location" location in
        (redirect none w ≡ (w, none))
        × (redirect (some ([], codes)) w ≡ (w, none))
        × (redirect (some (location ∷ more, [])) w
            ≡ (record w { response_header = header; sent_status = some 301 }, none))
        × ((v : String) (e : E)
            → atoi v ≡ failure e
            → redirect (some (location ∷ more, v ∷ codes)) w
              ≡ (record w { response_header = header }, some e))
        × ((v : String) (code : ℤ)
            → atoi v ≡ success code
            → redirect (some (location ∷ more, v ∷ codes)) w ≡ (
              record w { response_header = header; sent_status = some (redirect_status code) },
              none,
            ))
  unfolding redirect with_code write_header
  redirect_lem w location more codes h = (
    refl,
    refl,
    ground (arith, h),
    λ v e q. rw (q, redirect, with_code) refl,
    λ v code q. rw (q, redirect, with_code) (ground (arith, h)),
  )

-- formDecoderFunc: is the target a proto message, what reading the body, url.ParseQuery and
-- PopulateQueryParameters report. The message is in the form of its values.
module _ {E Values Msg : Type 0} (not_proto_message : E) (parse_query : String → Result E Values)
    (populate : Msg → Values → Msg × Option E) where
  unfoldable pub form_decoder_func : Result E String → Option Msg → Option Msg × Option E
  form_decoder_func body none = (none, some not_proto_message)
  form_decoder_func (failure err) (some msg) = (some msg, some err)
  form_decoder_func (success form) (some msg) = elim (parse_query form) [
    | failure err ↦ (some msg, some err)
    | success values ↦ let (msg', err) = populate msg values in (some msg', err)
  ]
