-- ===== src/Context.antt =====
-- The request context as the interceptors and handlers see it, and grpc's metadata package. Go's
-- context is a chain of values under private keys; each key that the program uses is a field here,
-- and a write under one key leaves the others. A stored pointer may be nil, so a pointer value is an
-- `Option` of its own.
use grpcx.Common.{ℕ, String, List, [], ◌∷◌, ◌≡◌, ◌≢◌, Option, none, some}
use grpcx.Auth.Types.{Claims, VendorIdentity}

-- google.golang.org/grpc/metadata: MD with Get, Set and Pairs, which lower-case the key, and the copy
-- with lower-case keys that FromIncomingContext hands out.
pub record MetadataPackage : Type 1 where
  pub MD : Type 0
  pub empty_md : MD
  pub get : MD → String → List String
  pub set : MD → String → String → MD
  pub pairs : String → String → MD
  pub copy : MD → MD
  pub lower_key : String → String
  pub HasLowerKeys : MD → Type 0
  pub get-empty : (k : String) → get empty_md k ≡ []
  pub get-set_self : (md : MD) (k v : String) → get (set md k v) k ≡ v ∷ []
  pub get-set_ne :
      (md : MD) (k j v : String) → lower_key k ≢ lower_key j → get (set md k v) j ≡ get md j
  pub get-pairs : (k v : String) → get (pairs k v) k ≡ v ∷ []
  pub get-copy : (md : MD) (k : String) → HasLowerKeys md → get (copy md) k ≡ get md k
  pub empty-HasLowerKeys : HasLowerKeys empty_md
  pub pairs-HasLowerKeys : (k v : String) → HasLowerKeys (pairs k v)
  pub set-HasLowerKeys : (md : MD) (k v : String) → HasLowerKeys md → HasLowerKeys (set md k v)
  pub copy-HasLowerKeys : (md : MD) → HasLowerKeys (copy md)

-- A slog logger, by the attributes that With gave it.
pub record Logger : Type 0 where
  pub attributes : List (String × String)

module _ (M : MetadataPackage) where
  open M use {MD, copy}

  pub record Context : Type 0 where
    -- under the key of grpc's metadata package
    pub incoming : Option MD
    -- under claimsKey and vendorKey of auth/context.go
    pub claims_value : Option (Option Claims)
    pub vendor_value : Option (Option VendorIdentity)
    -- under ctxKey of logger/context.go
    pub logger_value : Option (Option Logger)
    -- what ctx.Deadline, peer.FromContext (as text) and grpc.Method report
    pub deadline : Option ℕ
    pub peer : Option String
    pub full_method : Option String

  -- metadata.FromIncomingContext and metadata.NewIncomingContext
  abbrev pub copied : Option MD → Option MD
  copied none = none
  copied (some md) = some (copy md)

  abbrev pub from_incoming : Context → Option MD
  from_incoming ctx = copied ctx.incoming

  abbrev pub new_incoming : Context → MD → Context
  new_incoming ctx md = record ctx { incoming = some md }
