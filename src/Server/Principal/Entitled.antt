-- ===== src/Server/Principal/Entitled.antt =====
-- crates/l5m-server/src/principal.rs: what a principal that the header provider accepts may do.
use l5m.Prelude.{
  ℕ, ◌≡◌, refl, sym, ap, ◌∙◌, subst, Option, none, some, List, [], ◌∷◌, Bytes, bytes_eq,
  bytes_eq→eq, ◌⊎◌, inl, inr, Bool-cases, Option-cases, arith,
}
use l5m.Server.{Result, done, failed}
use l5m.Server.Principal.{
  ScopedKey, Principal, Headers, AuthError, x_l5m_api_key, x_l5m_trust, key_scope, key_tenant,
  find_key, match_key, resolve_tenant, resolve_rest, header_principal, bind, or_else_text,
  parse_unsigned,
}

abbrev pub In : ScopedKey → List ScopedKey → Type 0
In key [] = ⊥
In key (k ∷ ks) = (key ≡ k) ⊎ In key ks

some-injective : {A : Type 0} {a b : A} → some a ≡ some b → a ≡ b
some-injective h = cc

done-injective : {A : Type 0} {a b : A} → ◌≡◌ {A = Result AuthError A} (done a) (done b) → a ≡ b
done-injective h = cc

find_key-In :
    (presented : Bytes) (keys : List ScopedKey) {key : ScopedKey}
    → find_key presented keys ≡ some key
    → In key keys × (key.secret ≡ presented)
unfolding find_key
find_key-In presented [] h = absurd (cc)
find_key-In presented (k ∷ ks) {key} h = elim (Bool-cases (bytes_eq k.secret presented)) [
  | inl e ↦
      let same : k ≡ key = some-injective (rw e at h) in
      (inl (sym same), ap (λ k. k.secret) (sym same) ∙ bytes_eq→eq k.secret presented e)
  | inr e ↦ let (i, s) = find_key-In presented ks (rw e at h) in (inr i, s)
]

-- The tenant is the one that the key is bound to, if it is bound to one.
abbrev pub IsBoundTo : Option ℕ → ℕ → Type 0
IsBoundTo none tenant = Unit
IsBoundTo (some bound) tenant = tenant ≡ bound

-- What the last part of a request's resolution keeps.
resolve_rest-done :
    (matched : Option ScopedKey) (headers : Headers) (tenant : ℕ) {p : Principal}
    → resolve_rest matched headers tenant ≡ done p
    → (p.tenant_id ≡ tenant) × (p.scope ≡ key_scope matched)
unfolding resolve_rest
resolve_rest-done matched headers tenant {p} h =
    elim (Option-cases (parse_unsigned 8 (or_else_text (48 ∷ []) (headers x_l5m_trust)))) [
      | inl e ↦ absurd (ground arith)
      | inr (trust, e) ↦
          let same = done-injective (rw (e, resolve_rest) at h) in
          (ap (λ p. p.tenant_id) (sym same), ap (λ p. p.scope) (sym same))
    ]

resolve_tenant-done :
    (bound : Option ℕ) (headers : Headers) {tenant : ℕ}
    → resolve_tenant bound headers ≡ done tenant
    → IsBoundTo bound tenant
unfolding resolve_tenant
resolve_tenant-done none headers h = tt
resolve_tenant-done (some t) headers h = sym (done-injective h)

bind-done :
    {A B : Type 0} (r : Result AuthError A) (f : A → Result AuthError B) {b : B}
    → bind r f ≡ done b
    → (a : A) × (r ≡ done a) × (f a ≡ done b)
bind-done (done a) f h = (a, refl, h)
bind-done (failed e) f h = absurd (cc)

match_key-done :
    (k : ScopedKey) (ks : List ScopedKey) (headers : Headers) {matched : Option ScopedKey}
    → match_key (k ∷ ks) headers ≡ done matched
    → (key : ScopedKey) × (matched ≡ some key)
      × In key (k ∷ ks)
      × (headers x_l5m_api_key ≡ some key.secret)
unfolding match_key
match_key-done k ks headers {matched} h = elim (Option-cases (headers x_l5m_api_key)) [
  | inl e ↦ absurd (ground arith)
  | inr (presented, e) ↦ elim (Option-cases (find_key presented (k ∷ ks))) [
    | inl e' ↦ absurd (ground arith)
    | inr (key, e') ↦
        let (i, s) = find_key-In presented (k ∷ ks) e' in
        (key, sym (done-injective (rw (e, e', match_key) at h)), i, e ∙ ap some (sym s))
  ]
]

-- Where keys are configured, a request that is accepted has presented the secret of one of them; its
-- principal has that key's scope, and the tenant that the key is bound to, whatever the headers say.
pub header_principal-IsEntitled :
    (k : ScopedKey) (ks : List ScopedKey) (headers : Headers) (p : Principal)
    → header_principal (k ∷ ks) headers ≡ done p
    → (key : ScopedKey) × In key (k ∷ ks)
      × (headers x_l5m_api_key ≡ some key.secret)
      × (p.scope ≡ key.scope)
      × IsBoundTo key.tenant p.tenant_id
unfolding header_principal
header_principal-IsEntitled k ks headers p h =
    let (matched, m, h1) = bind-done (match_key (k ∷ ks) headers) _ h in
    let (tenant, t, h2) = bind-done (resolve_tenant (key_tenant matched) headers) _ h1 in
    let (key, e, i, s) = match_key-done k ks headers m in
    let (same_tenant, same_scope) = resolve_rest-done matched headers tenant h2 in
    (
      key,
      i,
      s,
      same_scope ∙ ap key_scope e,
      subst (IsBoundTo key.tenant) (sym same_tenant) (
          subst (λ m. IsBoundTo (key_tenant m) tenant) e
            (resolve_tenant-done (key_tenant matched) headers t)),
    )
