-- ===== src/Server/Headers/Authorization.antt =====
-- The token of a request through the gateway of server/gateway.go: what the gateway's runtime passes on
-- itself, and what SetMetadataAuthorization adds to it.
use grpcx.Common.{
  String, List, [], ◌∷◌, ◌++◌, ◌≡◌, refl, ◌∙◌, ap, Option, none, some, not, str_eq, string_equality,
  lookup, Bool-cases, Option-cases, inl, inr,
}
use grpcx.Common.Text.{◌+++◌, trim_prefix, trim_prefix-append}
use grpcx.Common.Result.{Result, success, failure}
use grpcx.Platform.{Platform}
use grpcx.Errs.{Error, unauthenticated_error}
use grpcx.Context.{MetadataPackage, Context, new_incoming}
use grpcx.Http.{HttpHeader, header_get, all_values}
use grpcx.Rpcctx.{values, get_token_from_context}
use grpcx.Server.Headers.{set_metadata_authorization, forward}

-- grpc-gateway: the metadata that it makes of a request's header, which has the values of Authorization
-- under "authorization" unless another header is mapped to that key, and metadata.Join, which joins
-- the metadata of an annotator behind it.
pub record Annotation (M : MetadataPackage) (canonical : String → String) : Type 0 where
  pub passed_through : HttpHeader → M.MD
  pub join_md : M.MD → M.MD → M.MD
  pub get-passed_through :
      (h : HttpHeader)
      → lookup (canonical "Grpc-Metadata-Authorization") h ≡ none
      → M.get (passed_through h) "authorization"
        ≡ all_values canonical (lookup (canonical "Authorization") h)
  pub get-join : (a b : M.MD) (k : String) → M.get (join_md a b) k ≡ M.get a k ++ M.get b k
  pub passed_through-HasLowerKeys : (h : HttpHeader) → M.HasLowerKeys (passed_through h)
  pub join-HasLowerKeys :
      (a b : M.MD) → M.HasLowerKeys a → M.HasLowerKeys b → M.HasLowerKeys (join_md a b)

module _ (M : MetadataPackage) (canonical : String → String)
    (cookie_of : HttpHeader → String → Option String) (A : Annotation M canonical)
    (P : Platform) where
  open M use {
    MD, empty_md, get, copy, HasLowerKeys, get-copy, get-pairs, get-empty, pairs,
    pairs-HasLowerKeys, empty-HasLowerKeys,
  }
  open A use {
    passed_through, join_md, get-passed_through, get-join, passed_through-HasLowerKeys,
    join-HasLowerKeys,
  }

  -- a nil metadata is empty
  abbrev or_nil : Option MD → MD
  or_nil none = empty_md
  or_nil (some md) = md

  -- The incoming metadata of an RPC where SetMetadataAuthorization is an annotator, and the token that
  -- the RPC side reads from it.
  abbrev pub annotated : HttpHeader → MD
  annotated h =
      join_md (passed_through h) (or_nil (set_metadata_authorization M canonical cookie_of h))

  abbrev pub token_of : Context M → HttpHeader → Result (Error P) String
  token_of ctx h = get_token_from_context M P (new_incoming M ctx (annotated h))

  abbrev missing_token : Error P
  missing_token = unauthenticated_error P "MISSING_ACCESS_TOKEN" "missing access token"

  abbrev token_from : List String → Result (Error P) String
  token_from [] = failure missing_token
  token_from (v ∷ vals) = success (trim_prefix v "Bearer ")

  forward-HasLowerKeys :
      (k name : String) (h : HttpHeader)
      → HasLowerKeys (or_nil (forward M canonical cookie_of k name h))
  unfolding forward
  forward-HasLowerKeys k name h =
      elim (Bool-cases (not (str_eq (header_get canonical h name) ""))) [
        | inl given ↦ rw (given, forward) (pairs-HasLowerKeys k (header_get canonical h name))
        | inr blank ↦ rw (blank, forward) empty-HasLowerKeys
      ]

  set-HasLowerKeys :
      (h : HttpHeader) → HasLowerKeys (or_nil (set_metadata_authorization M canonical cookie_of h))
  unfolding set_metadata_authorization
  set-HasLowerKeys h = elim (Option-cases (cookie_of h "session_token")) [
    | inl missing ↦
        rw (missing, set_metadata_authorization)
          (forward-HasLowerKeys "authorization" "Authorization" h)
    | inr (cookie, there) ↦
        rw (there, set_metadata_authorization)
          (pairs-HasLowerKeys "authorization" ("Bearer " +++ cookie))
  ]

  token_from-get :
      (ctx : Context M) (md : MD) (vals : List String)
      → HasLowerKeys md
      → get md "authorization" ≡ vals
      → get_token_from_context M P (new_incoming M ctx md) ≡ token_from vals
  unfolding get_token_from_context values
  token_from-get ctx md vals low e =
      let f : get (copy md) "authorization" ≡ vals = get-copy md "authorization" low ∙ e in
      go vals f
    where
      go :
          (vs : List String)
          → get (copy md) "authorization" ≡ vs
          → get_token_from_context M P (new_incoming M ctx md) ≡ token_from vs
      go [] f = rw (f, get_token_from_context) refl
      go (v ∷ vs) f = rw (f, get_token_from_context) refl

  -- Through the gateway, which joins what SetMetadataAuthorization gives behind the Authorization header
  -- that it passes on itself, an RPC's token is that header's first value, less a leading "Bearer ",
  -- if the request has the header, whatever its session cookie. Without the header it is the session
  -- cookie, and without either the token is missing. That holds where no other header of the request
  -- is mapped to the key of the token.
  pub token_of-set_metadata_authorization :
      (ctx : Context M) (h : HttpHeader)
      → lookup (canonical "Grpc-Metadata-Authorization") h ≡ none
      → ((v : String) (vals : List String)
          → lookup (canonical "Authorization") h ≡ some (v ∷ vals)
          → token_of ctx h ≡ success (trim_prefix v "Bearer "))
        × ((cookie : String)
            → lookup (canonical "Authorization") h ≡ none
            → cookie_of h "session_token" ≡ some cookie
            → token_of ctx h ≡ success cookie)
        × (lookup (canonical "Authorization") h ≡ none
            → cookie_of h "session_token" ≡ none
            → token_of ctx h
              ≡ failure (unauthenticated_error P "MISSING_ACCESS_TOKEN" "missing access token"))
  unfolding set_metadata_authorization forward header_get
  token_of-set_metadata_authorization ctx h free =
      let own = set_metadata_authorization M canonical cookie_of h in
      let low =
        join-HasLowerKeys (passed_through h) (or_nil own) (passed_through-HasLowerKeys h)
          (set-HasLowerKeys h) in
      let all : get (annotated h) "authorization"
          ≡ all_values canonical (lookup (canonical "Authorization") h)
            ++ get (or_nil own) "authorization" =
        get-join (passed_through h) (or_nil own) "authorization"
        ∙ ap (λ t. t ++ get (or_nil own) "authorization") (get-passed_through h free) in
      (
        λ v vals there.
            token_from-get ctx (annotated h) (v ∷ vals ++ get (or_nil own) "authorization") low
              (all ∙ ap (λ t. all_values canonical t ++ get (or_nil own) "authorization") there),
        λ cookie missing there.
            let mine : own ≡ some (pairs "authorization" ("Bearer " +++ cookie)) =
              rw (there, set_metadata_authorization) refl in
            token_from-get ctx (annotated h) (("Bearer " +++ cookie) ∷ []) low (
              all
              ∙ ap (λ t. all_values canonical t ++ get (or_nil own) "authorization") missing
              ∙ ap (λ t. get (or_nil t) "authorization") mine
              ∙ get-pairs "authorization" ("Bearer " +++ cookie))
            ∙ ap success (trim_prefix-append "Bearer " cookie),
        λ missing no_cookie.
            let mine : own ≡ none =
              rw (no_cookie, set_metadata_authorization) (rw (missing, forward, header_get) refl) in
            token_from-get ctx (annotated h) [] low (
              all
              ∙ ap (λ t. all_values canonical t ++ get (or_nil own) "authorization") missing
              ∙ ap (λ t. get (or_nil t) "authorization") mine
              ∙ get-empty "authorization"),
      )
