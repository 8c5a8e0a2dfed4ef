-- ===== src/Audit/Tamper.antt =====
-- crates/l5m-core/src/audit.rs: what verification of the chain finds, and what it does not.
use l5m.Prelude.{
  ℕ, ◌+◌, ◌*◌, ◌≤◌, ◌≡◌, ◌≢◌, refl, sym, ap, ap₂, ◌∙◌, subst, true, false, ◌&&◌, Option, none, some,
  List, [], ◌∷◌, ◌++◌, append_assoc, map, Bytes, bytes_eq, if◌then◌else◌, All, All-imp, Bool-cases,
  Option-cases, inl, inr, arith, length, replicate,
}
use l5m.Prelude.Digits.{hex_bytes, hex_bytes-injective, length-hex_bytes}
use l5m.Prelude.Utf8.{is_utf8}
use l5m.Platform.{Platform}
use l5m.Outcome.{
  Outcome, ok, err, ◌>>=◌, for_each, bind-ok, ok-injective, for_each-append, format, chain_broken,
  record_modified,
}
use l5m.Audit.{
  reading, for_each_line, AuditRecord, AuditReturned, Progress, split_lines, is_blank, check_record,
  check_line, last_record_hash, verify_chain, start, zero_hash, compute_hash, covered,
  returned_bytes,
}
use l5m.Audit.Chain.{
  reading-ok, reading-utf8, ends_line, check_record-ok, check_lines-ok, verified, lines-append,
  lines-line,
}

-- The records of the lines, the newest first, before those of `acc`.
abbrev pub entries : (Bytes → Option AuditRecord) → List Bytes → List AuditRecord → List AuditRecord
entries from_json [] acc = acc
entries from_json (l ∷ ls) acc =
    if is_blank l then entries from_json ls acc else elim (from_json l) [
      | none ↦ entries from_json ls acc
      | some r ↦ entries from_json ls (r ∷ acc)
    ]

abbrev pub history : (Bytes → Option AuditRecord) → Bytes → List AuditRecord
history from_json file = entries from_json (split_lines file) []

abbrev pub hashed : AuditRecord → Bytes
hashed r = r.prev_hash ++ covered r

-- What the hash of a record covers: the link, and the fields' text.
abbrev pub signed : AuditRecord → Bytes × Bytes
signed r = (r.prev_hash, covered r)

-- Texts of one length can be taken apart.
append-injective :
    (xs ys us vs : Bytes) → length xs ≡ length ys → xs ++ us ≡ ys ++ vs → (xs ≡ ys) × (us ≡ vs)
append-injective [] [] us vs n h = (refl, h)
append-injective [] (y ∷ ys) us vs n h = absurd (omega arith)
append-injective (x ∷ xs) [] us vs n h = absurd (omega arith)
append-injective (x ∷ xs) (y ∷ ys) us vs n h =
    let (e, e') = append-injective xs ys us vs (omega arith) (cc) in (cc, e')

module _ (platform : Platform) where
  -- A chain that ends in the hash, the newest record first.
  IsChain : List AuditRecord → Bytes → Type 0
  IsChain [] h = h ≡ zero_hash
  IsChain (r ∷ rs) h = (h ≡ compute_hash platform r) × IsChain rs r.prev_hash

  -- No two of the records have one hash for different texts.
  abbrev pub NoCollision : List AuditRecord → List AuditRecord → Type 0
  NoCollision rs ss =
      All
        (λ r.
          All (λ s. platform.blake3 (hashed r) ≡ platform.blake3 (hashed s) → hashed r ≡ hashed s)
            ss)
        rs

  abbrev pub NonZero : List AuditRecord → Type 0
  NonZero rs = All (λ r. platform.blake3 (hashed r) ≢ replicate 32 0) rs

  -- The progress, where there is one, stands on the chain.
  OkChain : List AuditRecord → Outcome Progress → Type 0
  OkChain acc (ok q) = IsChain acc q.expected_prev
  OkChain acc _ = Unit

  same_hash :
      (r s : AuditRecord)
      → compute_hash platform r ≡ compute_hash platform s
      → platform.blake3 (hashed r) ≡ platform.blake3 (hashed s)
  unfolding compute_hash
  same_hash r s e = hex_bytes-injective (platform.blake3 (hashed r)) (platform.blake3 (hashed s)) e

  module _ (sized : (text : Bytes) → length (platform.blake3 text) ≡ 32) where
    chain-length : (rs : List AuditRecord) (h : Bytes) → IsChain rs h → length h ≡ 64
    unfolding IsChain compute_hash
    chain-length [] h c = ap length c
    chain-length (r ∷ rs) h c =
        ap length c.0
        ∙ length-hex_bytes (platform.blake3 (hashed r))
        ∙ ap (λ n. 2 * n) (sized (hashed r))

    zero_hash-ne :
        (r : AuditRecord)
        → platform.blake3 (hashed r) ≢ replicate 32 0
        → zero_hash ≢ compute_hash platform r
    unfolding compute_hash hex_bytes
    zero_hash-ne r nz e =
        nz (hex_bytes-injective (platform.blake3 (hashed r)) (replicate 32 0) (sym e))

    -- Two chains that end in one hash are one.
    chains-agree :
        (rs ss : List AuditRecord) (h : Bytes)
        → IsChain rs h
        → IsChain ss h
        → NoCollision rs ss
        → NonZero rs
        → NonZero ss
        → map signed rs ≡ map signed ss
    unfolding IsChain
    chains-agree [] [] h c d free nz nz' = refl
    chains-agree [] (s ∷ ss) h c d free nz nz' = absurd (zero_hash-ne s nz'.0 (sym c ∙ d.0))
    chains-agree (r ∷ rs) [] h c d free nz nz' = absurd (zero_hash-ne r nz.0 (sym d ∙ c.0))
    chains-agree (r ∷ rs) (s ∷ ss) h c d free nz nz' =
        let texts = free.0.0 (same_hash r s (sym c.0 ∙ d.0)) in
        let sizes = chain-length rs r.prev_hash c.1 ∙ sym (chain-length ss s.prev_hash d.1) in
        let parts = append-injective r.prev_hash s.prev_hash (covered r) (covered s) sizes texts in
        ap₂ (◌∷◌) (ap₂ (λ a b. (a, b)) parts.0 parts.1) (
          chains-agree rs ss r.prev_hash c.1 (subst (IsChain ss) (sym parts.0) d.1)
            (All-imp _ _ rs (λ a f. f.1) free.1) nz.1 nz'.1)

  module _ (from_json : Bytes → Option AuditRecord) where
    -- What verification accepts is a chain, on top of the one that was there before.
    line-IsChain :
        (l : Bytes) (acc : List AuditRecord) (p : Progress) {q : Progress}
        → IsChain acc p.expected_prev
        → check_line from_json platform l p ≡ ok q
        → IsChain (entries from_json (l ∷ []) acc) q.expected_prev
    unfolding check_line IsChain OkChain
    line-IsChain l acc p {q} c h = elim (Bool-cases (is_blank l)) [
      | inl e ↦ rw e (subst (OkChain acc) (rw e at h) c)
      | inr e ↦ elim (Option-cases (from_json l)) [
        | inl e' ↦ absurd (ground arith)
        | inr (r, e') ↦
            let (prev, hash, next) = check_record-ok platform r p (rw (e, e') at h) in
            rw (e, e', next) (sym hash, subst (IsChain acc) (sym prev) c)
      ]
    ]

    entries-step :
        (l : Bytes) (ls : List Bytes) (acc : List AuditRecord)
        → entries from_json (l ∷ ls) acc ≡ entries from_json ls (entries from_json (l ∷ []) acc)
    entries-step l ls acc = ground arith

    lines-IsChain :
        (ls : List Bytes) (acc : List AuditRecord) (p : Progress) {q : Progress}
        → IsChain acc p.expected_prev
        → for_each (reading (check_line from_json platform)) ls p ≡ ok q
        → IsChain (entries from_json ls acc) q.expected_prev
    unfolding for_each OkChain
    lines-IsChain [] acc p c h = subst (OkChain acc) h c
    lines-IsChain (l ∷ ls) acc p {q} c h =
        let (p', e, e') =
          bind-ok (reading (check_line from_json platform) l p)
            (for_each (reading (check_line from_json platform)) ls) h in
        subst (λ rs. IsChain rs q.expected_prev) (sym (entries-step l ls acc))
          (lines-IsChain ls (entries from_json (l ∷ []) acc) p'
            (line-IsChain l acc p c (reading-ok (check_line from_json platform) l p e).1) e')

    file-IsChain :
        (file : Bytes) {n : ℕ} {h : Bytes}
        → verify_chain from_json platform (some file) ≡ ok n
        → last_record_hash from_json (some file) ≡ ok h
        → IsChain (history from_json file) h
    unfolding last_record_hash for_each_line IsChain
    file-IsChain file {n} {h} v l =
        let (q, e, c) = verified from_json platform file v in
        let same : ok q.expected_prev ≡ ok h =
          sym (check_lines-ok from_json platform (split_lines file) start e) ∙ l in
        subst (IsChain (history from_json file)) (cc)
          (lines-IsChain (split_lines file) [] start refl e)

    -- Two logs that verify and end in one hash have the same number of records, and in each the same
    -- link and the same text under the hash, which is that of all the other fields one after the
    -- other, if the hash has 32 bytes, does not collide on these records, and is not zero on them.
    pub verify_chain-same_history :
        (file other : Bytes) (n m : ℕ) (h : Bytes)
        → ((text : Bytes) → length (platform.blake3 text) ≡ 32)
        → NoCollision (history from_json file) (history from_json other)
        → NonZero (history from_json file)
        → NonZero (history from_json other)
        → verify_chain from_json platform (some file) ≡ ok n
        → verify_chain from_json platform (some other) ≡ ok m
        → last_record_hash from_json (some file) ≡ ok h
        → last_record_hash from_json (some other) ≡ ok h
        → map signed (history from_json file) ≡ map signed (history from_json other)
    verify_chain-same_history file other n m h sized free nz nz' v w l l' =
        chains-agree sized (history from_json file) (history from_json other) h
          (file-IsChain file v l) (file-IsChain other w l') free nz nz'

    line-index :
        (l : Bytes) (p : Progress) {q : Progress}
        → check_line from_json platform l p ≡ ok q
        → q.index ≡ p.index + 1
    unfolding check_line
    line-index l p {q} h = elim (Bool-cases (is_blank l)) [
      | inl e ↦ ap (λ q. q.index) (sym (ok-injective (rw e at h)))
      | inr e ↦ elim (Option-cases (from_json l)) [
        | inl e' ↦ absurd (ground arith)
        | inr (r, e') ↦ ap (λ q. q.index) (check_record-ok platform r p (rw (e, e') at h)).2
      ]
    ]

    lines-index :
        (ls : List Bytes) (p : Progress) {q : Progress}
        → for_each (reading (check_line from_json platform)) ls p ≡ ok q
        → q.index ≡ p.index + length ls
    unfolding for_each
    lines-index [] p h = omega (arith, ap (λ q. q.index) (ok-injective h))
    lines-index (l ∷ ls) p {q} h =
        let (p', e, e') =
          bind-ok (reading (check_line from_json platform) l p)
            (for_each (reading (check_line from_json platform)) ls) h in
        omega (
          arith,
          line-index l p (reading-ok (check_line from_json platform) l p e).1,
          lines-index ls p' e',
        )

    line-rejects :
        (line : Bytes) (r : AuditRecord) (p : Progress)
        → is_blank line ≡ false
        → from_json line ≡ some r
        → (bytes_eq r.prev_hash p.expected_prev && bytes_eq (compute_hash platform r) r.record_hash)
          ≡ false
        → check_line from_json platform line p
          ≡ err (
              format (
                if bytes_eq r.prev_hash p.expected_prev
                then record_modified p.index
                else chain_broken p.index))
    unfolding check_line check_record
    line-rejects line r p full reads wrong =
        elim (Bool-cases (bytes_eq r.prev_hash p.expected_prev)) [
          | inr e ↦ rw (full, reads, e) refl
          | inl e ↦
              let e' : bytes_eq (compute_hash platform r) r.record_hash ≡ false = ground arith in
              rw (full, reads, e, e') refl
        ]

    -- After lines that verify, a record in UTF-8 with the wrong link or the wrong hash is an error with the
    -- index of its line, which says which of the two is wrong, whatever follows.
    pub verify_chain-rejects :
        (front line back : Bytes) (n : ℕ) (h : Bytes) (r : AuditRecord)
        → ends_line front ≡ true
        → verify_chain from_json platform (some front) ≡ ok n
        → last_record_hash from_json (some front) ≡ ok h
        → All (λ b. 32 ≤ b) line
        → is_utf8 line ≡ true
        → is_blank line ≡ false
        → from_json line ≡ some r
        → (bytes_eq r.prev_hash h && bytes_eq (compute_hash platform r) r.record_hash) ≡ false
        → verify_chain from_json platform (some (front ++ (line ++ 10 ∷ back)))
          ≡ err (
              format (
                if bytes_eq r.prev_hash h
                then record_modified (length (split_lines front))
                else chain_broken (length (split_lines front))))
    unfolding verify_chain for_each_line for_each last_record_hash
    verify_chain-rejects front line back n h r ends v l plain utf8 full reads wrong =
        let (q, e, c) = verified from_json platform front v in
        let same : q.expected_prev ≡ h =
          ok-injective (sym (check_lines-ok from_json platform (split_lines front) start e) ∙ l) in
        let index : q.index ≡ length (split_lines front) =
          omega (arith, lines-index (split_lines front) start e) in
        let all_lines =
          lines-append front (line ++ 10 ∷ back) ends
          ∙ ap (λ ls. split_lines front ++ ls) (lines-line line back plain) in
        let loop = for_each (reading (check_line from_json platform)) in
        let error : reading (check_line from_json platform) line q
            ≡ err (
                format (
                  if bytes_eq r.prev_hash h
                  then record_modified (length (split_lines front))
                  else chain_broken (length (split_lines front)))) =
          reading-utf8 (check_line from_json platform) line q utf8
          ∙ rw (← same, ← index) (line-rejects line r q full reads (rw same wrong)) in
        ap (λ m. m >>= λ p. ok p.count)
          (ap (λ ls. loop ls start) all_lines
            ∙ for_each-append (reading (check_line from_json platform)) (split_lines front)
                (line ∷ split_lines back) start
            ∙ ap (λ m. m >>= loop (line ∷ split_lines back)) e
            ∙ ap (λ m. m >>= loop (split_lines back)) error)

  -- The hash does not say where one text field ends and the next begins: verification takes a
  -- record and the one in which the end of the context mask has moved to the policy mask, or the
  -- end of a returned id to its source hash, for each other.
  pub check_record-field_shift :
      (r : AuditRecord) (e : AuditReturned) (es : List AuditReturned) (a b c : Bytes) (p : Progress)
      → (check_record platform (record r { context_mask = a ++ b; policy_mask = c }) p
          ≡ check_record platform (record r { context_mask = a; policy_mask = b ++ c }) p)
        × (check_record platform
              (record r { returned = record e { capsule_id = a ++ b; source_hash = c } ∷ es })
              p
            ≡ check_record platform
                (record r { returned = record e { capsule_id = a; source_hash = b ++ c } ∷ es })
                p)
  unfolding check_record compute_hash covered returned_bytes
  check_record-field_shift r e es a b c p = (simp append_assoc, simp append_assoc)
