-- ===== src/Errs/Convert.antt =====
-- An error's way into a status, and out of it again.
use mathlib.Core.Option
use mathlib.Core.List.{append-nil, append_assoc}
use grpcx.Common.{
  String, [], ◌∷◌, ◌++◌, ◌≡◌, refl, ◌∙◌, ap, sym, Option, none, some, Map, lookup, true, false,
  arith, List, map, Option-cases, inl, inr, string_equality,
}
use grpcx.Platform.{
  Platform, Code, is_ok, Detail, error_info, bad_request, FieldViolation, invalid_argument,
}
use grpcx.Errs.{
  Error, app, foreign, entries_of, grpc_status, info_of, parse, parse_details, FromError,
  validation, append_violations, put_any, to_string_map,
}
use grpcx.Errs.Metadata.{
  IsWellFormed, metadata_at, lookup-put_any-to_string_map, lookup-to_string_map,
}

module _ (P : Platform) where
  open P use {
    Any, sprint, of_string, string_order, Status, Err, new_status, code_of, message_of, details_of,
    with_details, err_of, Encodable, code-new, message-new, details-new, with_details_ok,
    with_details_some, with_details-eq-some, err_some,
  }

  -- A status made by New and WithDetails, where a failure of WithDetails leaves the status of New.
  abbrev pub attach : Status → Option Status → Status
  attach stt none = stt
  attach stt (some s) = s

  pub attach_code :
      (c : Code) (m : String) (d : Detail)
      → let s = attach (new_status c m) (with_details (new_status c m) d) in
        (code_of s ≡ c) × (message_of s ≡ m)
  attach_code c m d = elim (Option-cases (with_details (new_status c m) d)) [
    | inl failed ↦ rw failed (code-new c m, message-new c m)
    | inr (t, done) ↦
        let facts = with_details-eq-some (new_status c m) d t done in
        rw done (facts.0 ∙ code-new c m, facts.1 ∙ message-new c m)
  ]

  attach_ok :
      (c : Code) (m : String) (d : Detail)
      → is_ok c ≡ true
      → details_of (attach (new_status c m) (with_details (new_status c m) d)) ≡ []
  attach_ok c m d h =
      rw (with_details_ok (new_status c m) d (ap is_ok (code-new c m) ∙ h)) (details-new c m)

  pub attach_detail :
      (c : Code) (m : String) (d : Detail)
      → is_ok c ≡ false
      → Encodable d
      → details_of (attach (new_status c m) (with_details (new_status c m) d)) ≡ d ∷ []
  attach_detail c m d h enc =
      let (t, done) = with_details_some (new_status c m) d (ap is_ok (code-new c m) ∙ h) enc in
      rw done (
        (with_details-eq-some (new_status c m) d t done).2
        ∙ ap (λ l. l ++ d ∷ []) (details-new c m))

  pub grpc_status-attach :
      (domain : String) (e : Error P)
      → grpc_status P domain e
        ≡ attach
            (new_status e.status_code e.message)
            (with_details (new_status e.status_code e.message) (error_info (info_of P domain e)))
  unfolding grpc_status
  grpc_status-attach domain e = ground arith

  -- GRPCStatus gives a status with the code and the message of the error, on both of its branches. An
  -- OK code carries no details; on any other code the status has one detail, the ErrorInfo of the
  -- error, provided that it can be marshalled, and that shows the code, the domain and each value of
  -- the metadata as formatted text.
  pub grpc_status_lem :
      (domain : String) (e : Error P) (k : String)
      → IsWellFormed P e
      → (code_of (grpc_status P domain e) ≡ e.status_code)
        × (message_of (grpc_status P domain e) ≡ e.message)
        × (is_ok e.status_code ≡ true → details_of (grpc_status P domain e) ≡ [])
        × (is_ok e.status_code ≡ false
            → Encodable (error_info (info_of P domain e))
            → details_of (grpc_status P domain e) ≡ error_info (info_of P domain e) ∷ [])
        × ((info_of P domain e).reason ≡ e.code)
        × ((info_of P domain e).domain ≡ domain)
        × (lookup k (info_of P domain e).info_metadata ≡ Option.map sprint (metadata_at P e k))
  grpc_status_lem domain e k h =
      let d : Detail = error_info (info_of P domain e) in
      rw (grpc_status-attach domain e) (
        (attach_code e.status_code e.message d).0,
        (attach_code e.status_code e.message d).1,
        attach_ok e.status_code e.message d,
        attach_detail e.status_code e.message d,
        refl,
        refl,
        lookup-to_string_map P k (entries_of P e.metadata) h,
      )

  -- What Parse sees of an error is what it sees of its status after a trip through Err and FromError:
  -- the code, and each metadata value as formatted text. That holds of an error whose code is not OK,
  -- whose details can be marshalled, and whose metadata has distinct keys.
  pub parse-grpc_status :
      (domain : String) (F : FromError P domain) (e : Error P) (x : Err) (k : String)
      → is_ok e.status_code ≡ false
      → Encodable (error_info (info_of P domain e))
      → IsWellFormed P e
      → err_of (grpc_status P domain e) ≡ some x
      → (parse P F.from_error (foreign x) ≡ parse P F.from_error (app e))
        × ((parse P F.from_error (foreign x)).0 ≡ e.code)
        × (m : Map String Any) × ((parse P F.from_error (foreign x)).1 ≡ some m)
        × (lookup k m ≡ Option.map (λ v. of_string (sprint v)) (metadata_at P e k))
  unfolding parse
  parse-grpc_status domain F e x k code enc h made =
      let one : details_of (grpc_status P domain e) ≡ error_info (info_of P domain e) ∷ [] =
        (grpc_status_lem domain e k h).3 code enc in
      rw (F.from_err (grpc_status P domain e) x made, F.from_app e)
        (
          refl,
          ap (λ l. (parse_details P l).0) one,
          put_any P [] (string_order.visit (to_string_map P (entries_of P e.metadata))),
          ap (λ l. (parse_details P l).1) one,
          lookup-put_any-to_string_map P k (entries_of P e.metadata) h,
        )

  append_violations-eq-map :
      (br : List FieldViolation) (m : Map String String)
      → append_violations P br m ≡ br ++ map (λ t. record { field = t.0; description = t.1 }) m
  unfolding append_violations
  append_violations-eq-map br [] = sym (append-nil br)
  append_violations-eq-map br ((f, d) ∷ m) =
      append_violations-eq-map (br ++ record { field = f; description = d } ∷ []) m
      ∙ append_assoc br (record { field = f; description = d } ∷ []) _

  abbrev pub violations_of : Map String String → List FieldViolation
  violations_of violations =
      map (λ t. record { field = t.0; description = t.1 }) (string_order.visit violations)

  validation-attach :
      (msg : String) (violations : Map String String)
      → validation P msg violations
        ≡ err_of (
            attach (new_status invalid_argument msg) (
              with_details
                (new_status invalid_argument msg)
                (bad_request (violations_of violations))))
  unfolding validation
  validation-attach msg violations =
      rw (append_violations-eq-map [] (string_order.visit violations), validation) (ground arith)

  -- Validation returns an error, never nil. Its status is InvalidArgument with the message, and if the
  -- violations can be marshalled its one detail is a BadRequest with a field violation for each entry
  -- of the map, in the order of the range statement.
  pub validation_lem :
      (domain : String) (F : FromError P domain) (msg : String) (violations : Map String String)
      → (x : Err) × (s : Status) × (validation P msg violations ≡ some x)
        × (F.from_error (foreign x) ≡ (s, true))
        × (code_of s ≡ invalid_argument)
        × (message_of s ≡ msg)
        × (Encodable (bad_request (violations_of violations))
            → details_of s ≡ bad_request (violations_of violations) ∷ [])
  validation_lem domain F msg violations =
      let d : Detail = bad_request (violations_of violations) in
      let s : Status =
        attach (new_status invalid_argument msg)
          (with_details (new_status invalid_argument msg) d) in
      let (code, message) = attach_code invalid_argument msg d in
      let (x, made) = err_some s (ap is_ok code) in
      (
        x,
        s,
        validation-attach msg violations ∙ made,
        F.from_err s x made,
        code,
        message,
        attach_detail invalid_argument msg d refl,
      )
