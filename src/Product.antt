-- ===== src/Product.antt =====
-- crates/l5m-core/src/product.rs: the capsules that are made of product memories, one list for each
-- view. Files are what they hold, and `from_json` is the JSON library's reading of a line.
pub mod Views
use l5m.Prelude.{
  ℕ, ◌+◌, Bool, true, false, Option, none, some, List, [], ◌∷◌, ◌++◌, Bytes, bytes_eq, from_le,
  take, map, filter, if◌then◌else◌,
}
use l5m.Prelude.Int.{ℤ}
use l5m.Prelude.Digits.{decimal}
use l5m.Prelude.Parse.{trim}
use l5m.Prelude.Utf8.{is_utf8}
use l5m.Platform.{Platform}
use l5m.Outcome.{Outcome, ok, err, ◌>>=◌, io, format, bad_product_line}
use l5m.Audit.{split_lines}
use l5m.Ingest.{unwrap_or}

pub record ProductTurn : Type 0 where
  pub turn_id : Bytes
  pub role : Bytes
  pub text : Bytes

pub record ProductMemoryRecord : Type 0 where
  pub memory_id : Bytes
  pub tenant_id : ℕ
  pub session_id : Bytes
  pub evidence_id : Option Bytes
  pub observed_at : ℤ
  pub valid_from : ℤ
  pub valid_until : Option ℤ
  pub context_mask : Bytes
  pub policy_mask : Bytes
  pub trust_level : ℕ
  pub classification : ℕ
  pub poison_risk : ℕ
  pub turns : List ProductTurn

pub record RawProductCapsule : Type 0 where
  pub capsule_id : Bytes
  pub tenant_id : ℕ
  pub claim : Bytes
  pub evidence : Bytes
  pub source_id : ℕ
  pub source_uri : Bytes
  pub valid_from : ℤ
  pub valid_until : Option ℤ
  pub observed_at : ℤ
  pub last_verified_at : ℤ
  pub context_mask : Bytes
  pub policy_mask : Bytes
  pub trust_level : ℕ
  pub classification : ℕ
  pub poison_risk : ℕ

-- The texts that the five views are named by.
pub data View : Type 0 where
  session user_turn assistant_turn turn native_capsule : View

abbrev pub view_name : View → Bytes
view_name session = 115 ∷ 101 ∷ 115 ∷ 115 ∷ 105 ∷ 111 ∷ 110 ∷ []
view_name user_turn = 117 ∷ 115 ∷ 101 ∷ 114 ∷ 45 ∷ 116 ∷ 117 ∷ 114 ∷ 110 ∷ []
view_name assistant_turn =
    97 ∷ 115 ∷ 115 ∷ 105 ∷ 115 ∷ 116 ∷ 97 ∷ 110 ∷ 116 ∷ 45 ∷ 116 ∷ 117 ∷ 114 ∷ 110 ∷ []
view_name turn = 116 ∷ 117 ∷ 114 ∷ 110 ∷ []
view_name native_capsule =
    110 ∷ 97 ∷ 116 ∷ 105 ∷ 118 ∷ 101 ∷ 45 ∷ 99 ∷ 97 ∷ 112 ∷ 115 ∷ 117 ∷ 108 ∷ 101 ∷ []

module _ (platform : Platform) where
  unfoldable pub stable_u128 : Bytes → ℕ
  stable_u128 value = from_le (take 16 (platform.blake3 value))

  unfoldable pub stable_u64 : Bytes → ℕ
  stable_u64 value = from_le (take 8 (platform.blake3 value))

  -- What the id of a capsule is the hash of.
  unfoldable pub material : ProductMemoryRecord → Bytes → View → Bytes
  material r turn_id view =
      r.memory_id ++ 58 ∷ (r.session_id ++ 58 ∷ (turn_id ++ 58 ∷ view_name view))

  unfoldable pub source_uri : ProductMemoryRecord → Bytes → View → Bytes
  source_uri r turn_id view =
      (108 ∷ 53 ∷ 109 ∷ 58 ∷ 47 ∷ 47 ∷ 112 ∷ 114 ∷ 111 ∷ 100 ∷ 117 ∷ 99 ∷ 116 ∷ 63 ∷ 109 ∷ 101 ∷ 109
        ∷ 111 ∷ 114 ∷ 121 ∷ 95 ∷ 105 ∷ 100 ∷ 61 ∷ [])
      ++ r.memory_id
      ++ (38 ∷ 115 ∷ 101 ∷ 115 ∷ 115 ∷ 105 ∷ 111 ∷ 110 ∷ 95 ∷ 105 ∷ 100 ∷ 61 ∷ [])
      ++ r.session_id
      ++ (38 ∷ 116 ∷ 117 ∷ 114 ∷ 110 ∷ 95 ∷ 105 ∷ 100 ∷ 61 ∷ [])
      ++ turn_id
      ++ (38 ∷ 101 ∷ 118 ∷ 105 ∷ 100 ∷ 101 ∷ 110 ∷ 99 ∷ 101 ∷ 95 ∷ 105 ∷ 100 ∷ 61 ∷ [])
      ++ unwrap_or [] r.evidence_id
      ++ (38 ∷ 118 ∷ 105 ∷ 101 ∷ 119 ∷ 61 ∷ [])
      ++ view_name view

  abbrev pub turn_id_of : Option ProductTurn → Bytes
  turn_id_of none = 115 ∷ 101 ∷ 115 ∷ 115 ∷ 105 ∷ 111 ∷ 110 ∷ []
  turn_id_of (some t) = t.turn_id

  unfoldable pub record_to_capsule :
      ProductMemoryRecord → View → Option ProductTurn → Bytes → RawProductCapsule
  unfolding stable_u128 stable_u64 material source_uri decimal
  record_to_capsule r view t text =
      let uri = source_uri r (turn_id_of t) view in
      record {
        capsule_id = decimal (stable_u128 (material r (turn_id_of t) view));
        tenant_id = r.tenant_id;
        claim = text;
        evidence = uri;
        source_id = stable_u64 r.memory_id;
        source_uri = uri;
        valid_from = r.valid_from;
        valid_until = r.valid_until;
        observed_at = r.observed_at;
        last_verified_at = r.observed_at;
        context_mask = r.context_mask;
        policy_mask = r.policy_mask;
        trust_level = r.trust_level;
        classification = r.classification;
        poison_risk = r.poison_risk;
      }

  -- `.join("\n")`.
  unfoldable pub join_lines : List Bytes → Bytes
  join_lines [] = []
  join_lines (l ∷ []) = l
  join_lines (l ∷ m ∷ ms) = let rest = join_lines (m ∷ ms) in l ++ 10 ∷ rest

  unfoldable pub session_text : ProductMemoryRecord → Bytes
  unfolding join_lines
  session_text r = join_lines (map (λ t. t.role ++ 58 ∷ 32 ∷ t.text) r.turns)

  -- `turn.role == role`.
  abbrev pub has_role : Bytes → ProductTurn → Bool
  has_role role t = bytes_eq t.role role

  unfoldable pub turn_capsules :
      ProductMemoryRecord → View → List ProductTurn → List RawProductCapsule
  unfolding record_to_capsule
  turn_capsules r view turns = map (λ t. record_to_capsule r view (some t) t.text) turns

  unfoldable pub record_capsules : View → ProductMemoryRecord → List RawProductCapsule
  unfolding turn_capsules session_text
  record_capsules session r = record_to_capsule r session none (session_text r) ∷ []
  record_capsules user_turn r =
      turn_capsules r user_turn (filter (has_role (117 ∷ 115 ∷ 101 ∷ 114 ∷ [])) r.turns)
  record_capsules assistant_turn r =
      turn_capsules r assistant_turn
        (filter (has_role (97 ∷ 115 ∷ 115 ∷ 105 ∷ 115 ∷ 116 ∷ 97 ∷ 110 ∷ 116 ∷ [])) r.turns)
  record_capsules turn r = turn_capsules r turn r.turns
  record_capsules native_capsule r = turn_capsules r native_capsule r.turns

  unfoldable pub build_view_capsules : List ProductMemoryRecord → View → List RawProductCapsule
  unfolding record_capsules
  build_view_capsules [] view = []
  build_view_capsules (r ∷ rs) view = record_capsules view r ++ build_view_capsules rs view

-- The loop of `read_product_records`, from the line of an index on.
unfoldable pub read_records :
    (Bytes → Option ProductMemoryRecord) → ℕ → List Bytes → Outcome (List ProductMemoryRecord)
unfolding trim
read_records from_json index [] = ok []
read_records from_json index (l ∷ ls) =
    let rest = read_records from_json (index + 1) ls in
    elim (trim l) [
      | [] ↦ rest
      | (c ∷ cs) ↦ elim (from_json (c ∷ cs)) [
        | none ↦ err (format (bad_product_line (index + 1)))
        | some r ↦ rest >>= λ rs. ok (r ∷ rs)
      ]
    ]

unfoldable pub read_product_records :
    (Bytes → Option ProductMemoryRecord) → Bytes → Outcome (List ProductMemoryRecord)
unfolding read_records split_lines is_utf8
read_product_records from_json text =
    if is_utf8 text then read_records from_json 0 (split_lines text) else err io
