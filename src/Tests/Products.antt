-- ===== src/Tests/Products.antt =====
-- Two memories whose names run into each other, and their views.
use l5m.Prelude.{◌≡◌, refl, none, some, [], ◌∷◌, All}
use l5m.Prelude.Int.{pos}
use l5m.Product.{
  ProductTurn, ProductMemoryRecord, user_turn, turn, record_to_capsule, build_view_capsules,
}
use l5m.Product.Views.{IsOf, build_view_capsules-IsOf, record_to_capsule-shift}
use l5m.Tests.{platform}

-- The role is "user".
abbrev said : ProductTurn
said = record { turn_id = 49 ∷ []; role = 117 ∷ 115 ∷ 101 ∷ 114 ∷ []; text = 104 ∷ [] }

abbrev memory : ProductMemoryRecord
memory = record {
  memory_id = 97 ∷ 58 ∷ 98 ∷ [];
  tenant_id = 7;
  session_id = 99 ∷ [];
  evidence_id = none;
  observed_at = pos 5;
  valid_from = pos 4;
  valid_until = some (pos 9);
  context_mask = 49 ∷ [];
  policy_mask = 49 ∷ [];
  trust_level = 3;
  classification = 1;
  poison_risk = 0;
  turns = said ∷ [];
}

abbrev other_memory : ProductMemoryRecord
other_memory = record memory { memory_id = 97 ∷ []; session_id = 98 ∷ 58 ∷ 99 ∷ []; tenant_id = 8 }

build_view_capsules-IsOf_example :
    All
      (IsOf (memory ∷ other_memory ∷ []))
      (build_view_capsules platform (memory ∷ other_memory ∷ []) user_turn)
build_view_capsules-IsOf_example =
    build_view_capsules-IsOf platform (memory ∷ other_memory ∷ []) user_turn

record_to_capsule-shift_example :
    (record_to_capsule platform memory turn (some said) (104 ∷ [])).capsule_id
    ≡ (record_to_capsule platform other_memory turn (some said) (105 ∷ [])).capsule_id
record_to_capsule-shift_example =
    record_to_capsule-shift platform memory other_memory turn (some said) (104 ∷ []) (105 ∷ [])
      (97 ∷ []) (98 ∷ []) (99 ∷ []) refl refl refl refl
