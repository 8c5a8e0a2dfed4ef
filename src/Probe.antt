-- ===== src/Probe.antt =====
-- crates/l5m-core/src/probe.rs: the terms of a text, its fingerprint, and the probe of a query. The
-- record `MemoryProbe` is in Frame. Text is its UTF-8 bytes: a byte of a character that is not ASCII
-- ends a term as the character does.
pub mod Terms
use l5m.Prelude.{
  ℕ, zero, suc, ◌+◌, ◌-◌, ◌*◌, ◌/◌, ◌%◌, ◌^◌, bit_or, compare, Ordering, Bool, true, false, not,
  ◌&&◌, ◌||◌, List, [], ◌∷◌, ◌++◌, Bytes, ltb, leb, ◌==◌, if◌then◌else◌, length, get_or, set,
  replicate, map,
}
use l5m.Prelude.Int.{ℤ, pos, negsuc, ◌+ℤ◌}
use l5m.Prelude.Text.{compare_bytes}
use l5m.Platform.{Platform}
use l5m.Frame.{MemoryProbe}

-- `matches!(ch, '.' | '-' | '_' | ':' | '/' | '@')`.
unfoldable pub is_joiner : ℕ → Bool
is_joiner b = b == 46 || b == 45 || b == 95 || b == 58 || b == 47 || b == 64

unfoldable pub is_ascii_alphanumeric : ℕ → Bool
is_ascii_alphanumeric b =
    (leb 48 b && leb b 57) || (leb 65 b && leb b 90) || (leb 97 b && leb b 122)

unfoldable pub in_term : ℕ → Bool
unfolding is_joiner is_ascii_alphanumeric
in_term b = is_ascii_alphanumeric b || is_joiner b

unfoldable pub to_ascii_lowercase : Bytes → Bytes
to_ascii_lowercase [] = []
to_ascii_lowercase (b ∷ bs) = (if leb 65 b && leb b 90 then b + 32 else b) ∷ to_ascii_lowercase bs

-- What `maybe_push_term` trims.
unfoldable pub is_trimmed : ℕ → Bool
unfolding is_joiner
is_trimmed b = is_joiner b || leb 128 b

unfoldable pub trim_start : Bytes → Bytes
unfolding is_trimmed
trim_start [] = []
trim_start (b ∷ bs) = let rest = trim_start bs in if is_trimmed b then rest else b ∷ bs

-- `b` before the trimmed rest.
unfoldable pub trim_end_step : ℕ → Bytes → Bytes
unfolding is_trimmed
trim_end_step b [] = if is_trimmed b then [] else b ∷ []
trim_end_step b (c ∷ cs) = b ∷ c ∷ cs

unfoldable pub trim_end : Bytes → Bytes
unfolding trim_end_step
trim_end [] = []
trim_end (b ∷ bs) = trim_end_step b (trim_end bs)

-- `BTreeSet::insert`, on the elements in order.
unfoldable pub insert_term : Bytes → List Bytes → List Bytes
insert_term t [] = t ∷ []
insert_term t (u ∷ us) = elim (compare_bytes t u) [
  | Ordering.lt ↦ t ∷ u ∷ us
  | Ordering.eq ↦ u ∷ us
  | Ordering.gt ↦ u ∷ insert_term t us
]

unfoldable pub maybe_push_term : List Bytes → Bytes → List Bytes
unfolding trim_start trim_end insert_term
maybe_push_term terms token =
    let trimmed = trim_end (trim_start token) in
    if leb 3 (length trimmed) then insert_term trimmed terms else terms

-- `if !token.is_empty() { maybe_push_term(…) }`.
unfoldable pub flush : List Bytes → Bytes → List Bytes
unfolding maybe_push_term
flush terms [] = terms
flush terms (b ∷ bs) = maybe_push_term terms (b ∷ bs)

-- One round of the loop: the terms, and the token so far.
unfoldable pub scan_step : ℕ → List Bytes × Bytes → List Bytes × Bytes
unfolding in_term flush
scan_step b (terms, token) = if in_term b then (terms, token ++ b ∷ []) else (flush terms token, [])

unfoldable pub scan : Bytes → List Bytes × Bytes → List Bytes
unfolding scan_step flush
scan [] s = flush s.0 s.1
scan (b ∷ bs) s = scan bs (scan_step b s)

unfoldable pub extract_terms : Bytes → List Bytes
unfolding to_ascii_lowercase scan
extract_terms text = scan (to_ascii_lowercase text) ([], [])

-- `format!("{} {}", …)`.
unfoldable pub spaced : Bytes → Bytes → Bytes
spaced a b = a ++ 32 ∷ b

unfoldable pub windows2 : List Bytes → List Bytes
unfolding spaced
windows2 (a ∷ b ∷ ts) = spaced a b ∷ windows2 (b ∷ ts)
windows2 _ = []

unfoldable pub windows3 : List Bytes → List Bytes
unfolding spaced
windows3 (a ∷ b ∷ c ∷ ts) = spaced (spaced a b) c ∷ windows3 (b ∷ c ∷ ts)
windows3 _ = []

unfoldable pub semantic_features : List Bytes → List Bytes
unfolding windows2 windows3
semantic_features terms = terms ++ windows2 terms ++ windows3 terms

-- An i16 sum, which wraps in a release build.
unfoldable pub wrap_i16 : ℤ → ℤ
wrap_i16 (pos n) = let m = n % 2 ^ 16 in if ltb m (2 ^ 15) then pos m else negsuc (2 ^ 16 - 1 - m)
wrap_i16 (negsuc n) =
    let m = n % 2 ^ 16 in if ltb m (2 ^ 15) then negsuc m else pos (2 ^ 16 - 1 - m)

-- `value.clamp(i8::MIN as i16, i8::MAX as i16)`.
unfoldable pub clamp_i8 : ℤ → ℤ
clamp_i8 (pos n) = if ltb 127 n then pos 127 else pos n
clamp_i8 (negsuc n) = if ltb 127 n then negsuc 127 else negsuc n

module _ (platform : Platform) where
  -- `bits[bit / 64] |= 1u64 << (bit % 64)` for the byte of the hash at `2 * chunk`.
  unfoldable pub set_chunk : Bytes → ℕ → List ℕ → List ℕ
  set_chunk hash chunk bits =
      let bit = get_or hash (chunk * 2) 0 % 256 in
      set bits (bit / 64) (bit_or (get_or bits (bit / 64) 0) (2 ^ (bit % 64)))

  unfoldable pub add_feature_bits : List Bytes → List ℕ → List ℕ
  unfolding set_chunk
  add_feature_bits [] bits = bits
  add_feature_bits (feature ∷ features) bits =
      let hash = platform.blake3 feature in
      add_feature_bits features
        (set_chunk hash 3 (set_chunk hash 2 (set_chunk hash 1 (set_chunk hash 0 bits))))

  unfoldable pub semantic_bits_for_terms : List Bytes → List ℕ
  unfolding semantic_features add_feature_bits
  semantic_bits_for_terms terms = add_feature_bits (semantic_features terms) (0 ∷ 0 ∷ 0 ∷ 0 ∷ [])

  unfoldable pub semantic_bits_for_text : Bytes → List ℕ
  unfolding semantic_bits_for_terms extract_terms
  semantic_bits_for_text text = semantic_bits_for_terms (extract_terms text)

  -- `sign * weight` of a feature with the hash.
  unfoldable pub signed_weight : Bytes → ℤ
  signed_weight hash =
      let weight = 1 + get_or hash 2 0 % 3 in
      if get_or hash 1 0 % 2 == 0 then pos weight else negsuc (weight - 1)

  unfoldable pub add_feature_residual : List Bytes → List ℤ → List ℤ
  unfolding signed_weight wrap_i16
  add_feature_residual [] acc = acc
  add_feature_residual (feature ∷ features) acc =
      let hash = platform.blake3 feature in
      let index = get_or hash 0 0 % 64 in
      add_feature_residual features
        (set acc index (wrap_i16 (get_or acc index (pos 0) +ℤ signed_weight hash)))

  unfoldable pub residual_for_terms : List Bytes → List ℤ
  unfolding semantic_features add_feature_residual clamp_i8
  residual_for_terms terms =
      map clamp_i8 (add_feature_residual (semantic_features terms) (replicate 64 (pos 0)))

  unfoldable pub residual_for_text : Bytes → List ℤ
  unfolding residual_for_terms extract_terms
  residual_for_text text = residual_for_terms (extract_terms text)

  -- `MemoryProbe::build`.
  unfoldable pub build_probe : Bytes → ℕ → ℤ → ℕ → ℕ → ℕ → MemoryProbe platform.F32
  unfolding extract_terms semantic_bits_for_terms residual_for_text
  build_probe query_text tenant_id as_of context_mask caller_policy_mask trust_floor =
      let anchors = extract_terms query_text in
      record {
        query_text = query_text;
        tenant_id = tenant_id;
        as_of = as_of;
        context_mask = context_mask;
        caller_policy_mask = caller_policy_mask;
        trust_floor = trust_floor;
        semantic_bits = semantic_bits_for_terms anchors;
        residual = residual_for_text query_text;
        embedding = [];
        anchors = anchors;
        entities = anchors;
        include_supporting = false;
        include_contradictions = false;
        max_hops = 1;
        max_capsules = 8;
        max_tokens = 1024;
      }
