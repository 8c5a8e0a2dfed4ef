-- ===== src/Product/Views.antt =====
-- crates/l5m-core/src/product.rs: whose memories a view shows, and under which ids.
use l5m.Prelude.{
  ℕ, ◌≡◌, refl, ap, sym, ◌∙◌, append_assoc, Option, some, none, List, [], ◌∷◌, ◌++◌, Bytes,
  get_elem?, All, All-append, All-intro,
}
use l5m.Prelude.Digits.{decimal}
use l5m.Platform.{Platform}
use l5m.Product.{
  ProductTurn, ProductMemoryRecord, RawProductCapsule, View, session, user_turn, assistant_turn,
  turn, native_capsule, view_name, turn_id_of, stable_u128, material, session_text,
  record_to_capsule, turn_capsules, record_capsules, build_view_capsules,
}

-- The capsule has the owner, the masks, the trust and the times of one of the records.
pub record IsOf (records : List ProductMemoryRecord) (c : RawProductCapsule) : Type 0 where
  pub k : ℕ
  pub source : ProductMemoryRecord
  pub found : get_elem? records k ≡ some source
  pub same_tenant : c.tenant_id ≡ source.tenant_id
  pub same_context : c.context_mask ≡ source.context_mask
  pub same_policy : c.policy_mask ≡ source.policy_mask
  pub same_trust : c.trust_level ≡ source.trust_level
  pub same_classification : c.classification ≡ source.classification
  pub same_risk : c.poison_risk ≡ source.poison_risk
  pub same_start : c.valid_from ≡ source.valid_from
  pub same_end : c.valid_until ≡ source.valid_until

module _ (platform : Platform) where
  module _ (P : RawProductCapsule → Type 0) where
    -- Every capsule of the record has the property.
    abbrev Gives : ProductMemoryRecord → Type 0
    Gives r =
        (view : View) (t : Option ProductTurn) (text : Bytes)
        → P (record_to_capsule platform r view t text)

    All-turn_capsules :
        (r : ProductMemoryRecord) (view : View) (turns : List ProductTurn)
        → Gives r
        → All P (turn_capsules platform r view turns)
    unfolding turn_capsules
    All-turn_capsules r view [] g = tt
    All-turn_capsules r view (t ∷ ts) g = (g view (some t) t.text, All-turn_capsules r view ts g)

    All-record_capsules :
        (view : View) (r : ProductMemoryRecord) → Gives r → All P (record_capsules platform view r)
    unfolding record_capsules
    All-record_capsules session r g = (g session none (session_text platform r), tt)
    All-record_capsules user_turn r g = All-turn_capsules r user_turn _ g
    All-record_capsules assistant_turn r g = All-turn_capsules r assistant_turn _ g
    All-record_capsules turn r g = All-turn_capsules r turn _ g
    All-record_capsules native_capsule r g = All-turn_capsules r native_capsule _ g

    All-build_view_capsules :
        (view : View) (records : List ProductMemoryRecord)
        → All Gives records
        → All P (build_view_capsules platform records view)
    unfolding build_view_capsules
    All-build_view_capsules view [] g = tt
    All-build_view_capsules view (r ∷ rs) g =
        All-append P _ _ (All-record_capsules view r g.0) (All-build_view_capsules view rs g.1)

  -- Every capsule of every view belongs to the tenant of a record, and has that record's masks,
  -- trust, classification, risk and times of validity.
  pub build_view_capsules-IsOf :
      (records : List ProductMemoryRecord) (view : View)
      → All (IsOf records) (build_view_capsules platform records view)
  unfolding record_to_capsule
  build_view_capsules-IsOf records view = All-build_view_capsules (IsOf records) view records (
      All-intro (Gives (IsOf records)) records (λ k r found v t text. record {
        k = k;
        source = r;
        found = found;
        same_tenant = refl;
        same_context = refl;
        same_policy = refl;
        same_trust = refl;
        same_classification = refl;
        same_risk = refl;
        same_start = refl;
        same_end = refl;
      }))

  material-shift :
      (r : ProductMemoryRecord) (turn_id : Bytes) (view : View) (a b c : Bytes)
      → material platform (record r { memory_id = a ++ 58 ∷ b; session_id = c }) turn_id view
        ≡ material platform (record r { memory_id = a; session_id = b ++ 58 ∷ c }) turn_id view
  unfolding material
  material-shift r turn_id view a b c =
      let rest = 58 ∷ (turn_id ++ 58 ∷ view_name view) in
      append_assoc a (58 ∷ b) (58 ∷ (c ++ rest))
      ∙ ap (λ bs. a ++ 58 ∷ bs) (sym (append_assoc b (58 ∷ c) rest))

  -- Memories `a:b` of session `c` and `a` of session `b:c` get capsules with the same id, whatever
  -- their owners are.
  pub record_to_capsule-shift :
      (r s : ProductMemoryRecord) (view : View) (t : Option ProductTurn) (text text' a b c : Bytes)
      → r.memory_id ≡ a ++ 58 ∷ b
      → r.session_id ≡ c
      → s.memory_id ≡ a
      → s.session_id ≡ b ++ 58 ∷ c
      → (record_to_capsule platform r view t text).capsule_id
        ≡ (record_to_capsule platform s view t text').capsule_id
  unfolding record_to_capsule material
  record_to_capsule-shift r s view t text text' a b c rm rs sm ss =
      rw (rm, rs, sm, ss)
        (ap (λ m. decimal (stable_u128 platform m))
          (material-shift r (turn_id_of platform t) view a b c))
