-- ===== src/Logger/Pretty/Layout.antt =====
-- What the pretty handler of logger/pretty.go writes: one entry for each attribute, however deep the
-- group in which it stands.
use grpcx.Common.{
  String, List, [], ◌∷◌, ◌++◌, ◌≡◌, refl, ◌∙◌, ap, sym, false, if◌then◌else◌, str_eq, Bool-cases,
  inl, inr,
}
use grpcx.Common.Integers.{ℤ}
use text.Mathlib.TextLemmas.{nil-append, append-nil, append_assoc}
use grpcx.Common.Text.{◌+++◌}
use grpcx.Logger.{nil_value, group_value, valuer, no_attrs, attr, Printing, LogValue, LogAttrs}
use grpcx.Logger.Pretty.{
  full_key, entry_text, group_prefix, write_attr, write_attrs, PrettyHandler, LogRecord, handle,
  head_line, with_attrs, with_group, append_attrs, new_pretty_handler,
}

module _ (R : Printing) where
  -- The attributes that are no groups, with their full keys: the keys of the groups around them and
  -- their own, without empty group keys.
  abbrev mutual
    pub leaves_of : List String → String → LogValue R → List (String × LogValue R)
    leaves_of groups key (valuer v) = leaves_of groups key v
    leaves_of groups key (group_value attrs) = leaves (group_prefix R groups key) attrs
    leaves_of groups key nil_value =
        if str_eq key "" then [] else (full_key R groups key, nil_value) ∷ []
    leaves_of groups key v = (full_key R groups key, v) ∷ []

    pub leaves : List String → LogAttrs R → List (String × LogValue R)
    leaves groups no_attrs = []
    leaves groups (attr key v more) = leaves_of groups key v ++ leaves groups more

  -- the entries one after the other
  abbrev pub entries : List (String × LogValue R) → String
  entries [] = ""
  entries ((key, v) ∷ more) = entry_text R key v +++ entries more

  entries-append : (l m : List (String × LogValue R)) → entries (l ++ m) ≡ entries l +++ entries m
  entries-append [] m = sym (nil-append (entries m))
  entries-append ((key, v) ∷ l) m =
      ap (λ t. entry_text R key v +++ t) (entries-append l m)
      ∙ sym (append_assoc (entry_text R key v) (entries l) (entries m))

  one_entry :
      (buf key : String) (v : LogValue R)
      → buf +++ entry_text R key v ≡ buf +++ entries ((key, v) ∷ [])
  one_entry buf key v = ap (λ t. buf +++ t) (sym (append-nil (entry_text R key v)))

  mutual
    unfolding write_attr write_attrs

    write_attr_lem :
        (buf : String) (groups : List String) (key : String) (v : LogValue R)
        → write_attr R buf groups key v ≡ buf +++ entries (leaves_of groups key v)
    write_attr_lem buf groups key (valuer v) = write_attr_lem buf groups key v
    write_attr_lem buf groups key (group_value attrs) =
        write_attrs_lem buf (group_prefix R groups key) attrs
    write_attr_lem buf groups key nil_value = elim (Bool-cases (str_eq key "")) [
      | inl q ↦ rw (q, write_attr) (sym (append-nil buf))
      | inr q ↦ rw (q, write_attr) (one_entry buf (full_key R groups key) nil_value)
    ]
    write_attr_lem buf groups key v = one_entry buf (full_key R groups key) v

    write_attrs_lem :
        (buf : String) (groups : List String) (attrs : LogAttrs R)
        → write_attrs R buf groups attrs ≡ buf +++ entries (leaves groups attrs)
    write_attrs_lem buf groups no_attrs = sym (append-nil buf)
    write_attrs_lem buf groups (attr key v more) =
        write_attrs_lem (write_attr R buf groups key v) groups more
        ∙ ap (λ t. t +++ entries (leaves groups more)) (write_attr_lem buf groups key v)
        ∙ append_assoc buf (entries (leaves_of groups key v)) (entries (leaves groups more))
        ∙ ap (λ t. buf +++ t) (sym (entries-append (leaves_of groups key v) (leaves groups more)))

  -- A record is written as one line with time, level and message, and then one entry for each attribute
  -- that is no group, first those of the handler, then those of the record: a nested attribute
  -- stands under the keys of all groups around it, those of WithGroup first, and an attribute
  -- without key and value is left out.
  pub handle_lem :
      (h : PrettyHandler R) (r : LogRecord R)
      → handle R h r
        ≡ head_line R r +++ entries (leaves h.groups h.attrs ++ leaves h.groups r.record_attrs)
  unfolding handle
  handle_lem h r =
      let own : String = entries (leaves h.groups h.attrs) in
      let rest : String = entries (leaves h.groups r.record_attrs) in
      write_attrs_lem (write_attrs R (head_line R r) h.groups h.attrs) h.groups r.record_attrs
      ∙ ap (λ t. t +++ rest) (write_attrs_lem (head_line R r) h.groups h.attrs)
      ∙ append_assoc (head_line R r) own rest
      ∙ ap (λ t. head_line R r +++ t)
          (sym (entries-append (leaves h.groups h.attrs) (leaves h.groups r.record_attrs)))

  write_attrs-append :
      (buf : String) (groups : List String) (attrs more : LogAttrs R)
      → write_attrs R buf groups (append_attrs R attrs more)
        ≡ write_attrs R (write_attrs R buf groups attrs) groups more
  unfolding write_attrs
  write_attrs-append buf groups no_attrs more = refl
  write_attrs-append buf groups (attr key v attrs) more =
      write_attrs-append (write_attr R buf groups key v) groups attrs more

  -- WithGroup qualifies the attributes of a record as a group attribute around them would, and WithAttrs
  -- adds attributes as the record itself would have them before its own: on a handler that has no
  -- attributes, both write the same as the handler with a changed record.
  pub handle-with_group :
      (level : ℤ) (groups : List String) (name : String) (attrs : LogAttrs R) (r : LogRecord R)
      → let h : PrettyHandler R = record { level = level; attrs = no_attrs; groups = groups } in
        (str_eq name "" ≡ false
          → handle R (with_group R name h) r
            ≡ handle R h
                (record r { record_attrs = attr name (group_value r.record_attrs) no_attrs }))
        × (handle R (with_attrs R attrs h) r
            ≡ handle R h (record r { record_attrs = append_attrs R attrs r.record_attrs }))
  unfolding handle with_group with_attrs write_attr write_attrs
  handle-with_group level groups name attrs r = (
    λ q. rw (q, write_attrs) refl,
    sym (write_attrs-append (head_line R r) groups attrs r.record_attrs),
  )

  -- A handler forgets the order of WithAttrs and WithGroup: attributes that were added before a group
  -- was opened are written under the keys of that group as well.
  pub with_group-with_attrs :
      (h : PrettyHandler R) (name : String) (attrs : LogAttrs R) (r : LogRecord R)
      → (handle R (with_group R name (with_attrs R attrs h)) r
          ≡ handle R (with_attrs R attrs (with_group R name h)) r)
        × (handle R (with_group R name (with_attrs R attrs (new_pretty_handler R h.level))) r
            ≡ head_line R r
              +++ entries (leaves (name ∷ []) attrs ++ leaves (name ∷ []) r.record_attrs))
  unfolding with_group with_attrs new_pretty_handler
  with_group-with_attrs h name attrs r =
      (refl, handle_lem (with_group R name (with_attrs R attrs (new_pretty_handler R h.level))) r)
