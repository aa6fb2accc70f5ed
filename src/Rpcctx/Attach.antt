-- ===== src/Rpcctx/Attach.antt =====
-- What attaching a value to the incoming metadata changes and leaves.
use grpcx.Common.{String, [], ◌∷◌, ◌≡◌, ◌≢◌, refl, ◌∙◌, ap, sym, some, none, Option, List}
use grpcx.Common.Text.{join}
use grpcx.Context.{MetadataPackage, Context, from_incoming, new_incoming, copied}
use grpcx.Rpcctx.{
  values, values_of, joined, join_values, or_empty, header_request_id, md_key_http_method,
  get_request_id_from_context, attach_request_id_to_incoming_context, get_http_method_from_context,
  attach_http_method_to_incoming_context,
}

module _ (M : MetadataPackage) where
  open M use {
    MD, get, set, HasLowerKeys, get-empty, get-set_self, get-set_ne, get-copy, empty-HasLowerKeys,
    set-HasLowerKeys, copy-HasLowerKeys, lower_key,
  }

  or_empty-HasLowerKeys : (ctx : Context M) → HasLowerKeys (or_empty M (from_incoming M ctx))
  unfolding or_empty
  or_empty-HasLowerKeys ctx = go ctx.incoming
    where
      go : (o : Option MD) → HasLowerKeys (or_empty M (copied M o))
      go none = empty-HasLowerKeys
      go (some md) = copy-HasLowerKeys md

  -- a context whose incoming metadata had one key set
  abbrev attached : Context M → String → String → Context M
  attached ctx k v = new_incoming M ctx (set (or_empty M (from_incoming M ctx)) k v)

  values-attached_self :
      (ctx : Context M) (k v : String) → values M (attached ctx k v) k ≡ some (v ∷ [])
  unfolding values
  values-attached_self ctx k v =
      let md : MD = or_empty M (from_incoming M ctx) in
      ap some (
        get-copy (set md k v) k (set-HasLowerKeys md k v (or_empty-HasLowerKeys ctx))
        ∙ get-set_self md k v)

  joined-attached_self : (ctx : Context M) (k v : String) → joined M (attached ctx k v) k ≡ v
  unfolding joined join
  joined-attached_self ctx k v = ap join_values (values-attached_self ctx k v)

  abbrev pub listed : Option (List String) → List String
  listed none = []
  listed (some vals) = vals

  values-attached_ne :
      (ctx : Context M) (k j v : String)
      → lower_key k ≢ lower_key j
      → values M (attached ctx k v) j ≡ some (listed (values M ctx j))
  unfolding values or_empty
  values-attached_ne ctx k j v h =
      let md : MD = or_empty M (from_incoming M ctx) in
      ap some (
        get-copy (set md k v) j (set-HasLowerKeys md k v (or_empty-HasLowerKeys ctx))
        ∙ get-set_ne md k j v h
        ∙ before ctx.incoming)
    where
      before :
          (o : Option MD) → get (or_empty M (copied M o)) j ≡ listed (values_of M (copied M o) j)
      before none = get-empty j
      before (some md) = refl

  join_listed : (o : Option (List String)) → join_values (some (listed o)) ≡ join_values o
  unfolding join
  join_listed none = refl
  join_listed (some vals) = refl

  joined-attached_ne :
      (ctx : Context M) (k j v : String)
      → lower_key k ≢ lower_key j
      → joined M (attached ctx k v) j ≡ joined M ctx j
  unfolding joined
  joined-attached_ne ctx k j v h =
      ap join_values (values-attached_ne ctx k j v h) ∙ join_listed (values M ctx j)

  -- After AttachRequestIDToIncomingContext the request ID reads back, the HTTP method is what it was
  -- and only the incoming metadata of the context has changed; and the same with the two exchanged
  -- for AttachHTTPMethodToIncomingContext. The keys of the two are taken to differ in lower case.
  pub attach_lem :
      (ctx : Context M) (v : String)
      → lower_key header_request_id ≢ lower_key md_key_http_method
      → (get_request_id_from_context M (attach_request_id_to_incoming_context M ctx v) ≡ v)
        × (get_http_method_from_context M (attach_request_id_to_incoming_context M ctx v)
            ≡ get_http_method_from_context M ctx)
        × (get_http_method_from_context M (attach_http_method_to_incoming_context M ctx v) ≡ v)
        × (get_request_id_from_context M (attach_http_method_to_incoming_context M ctx v)
            ≡ get_request_id_from_context M ctx)
        × (record (attach_request_id_to_incoming_context M ctx v) { incoming = ctx.incoming } ≡ ctx)
        × (record (attach_http_method_to_incoming_context M ctx v) { incoming = ctx.incoming }
            ≡ ctx)
  unfolding get_request_id_from_context get_http_method_from_context
      attach_request_id_to_incoming_context attach_http_method_to_incoming_context
  attach_lem ctx v h = (
    joined-attached_self ctx header_request_id v,
    joined-attached_ne ctx header_request_id md_key_http_method v h,
    joined-attached_self ctx md_key_http_method v,
    joined-attached_ne ctx md_key_http_method header_request_id v (λ e. h (sym e)),
    refl,
    refl,
  )

  -- the values of other keys, once a request ID is attached
  pub values-attach_request_id :
      (ctx : Context M) (j id : String)
      → lower_key header_request_id ≢ lower_key j
      → values M (attach_request_id_to_incoming_context M ctx id) j ≡ some (listed (values M ctx j))
  unfolding attach_request_id_to_incoming_context
  values-attach_request_id ctx j id d = values-attached_ne ctx header_request_id j id d
