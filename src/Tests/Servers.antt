-- ===== src/Tests/Servers.antt =====
-- A key that is bound to a tenant, a clock of numbers, and writes through the handlers.
use l5m.Prelude.{
  ℕ, ◌+◌, ◌-◌, ◌*◌, ◌≤◌, ◌≡◌, refl, min, max, none, some, List, [], ◌∷◌, leb, ◌==◌, if◌then◌else◌,
  filter,
}
use l5m.Prelude.Parse.{from_str_radix, parse_digits, strip_plus, to_digit, add_digit}
use l5m.Outcome.{ok}
use l5m.Store.{MemoryStore}
use l5m.Store.View.{view}
use l5m.Server.{done}
use l5m.Server.Principal.{
  read, rank, ScopedKey, Principal, Headers, x_l5m_api_key, x_l5m_tenant, all_ones,
  header_principal, match_key, find_key, resolve_tenant, resolve_rest, parse_unsigned, below,
}
use l5m.Server.Principal.Entitled.{In, IsBoundTo, header_principal-IsEntitled}
use l5m.Server.Limit.{Clock, allow, new}
use l5m.Server.Limit.Isolation.{decisions, decisions-isolated}
use l5m.Server.Authorize.{authorize, permit, limit, authorize_found, insert_memory, delete_memory}
use l5m.Server.Authorize.Owned.{
  authorize-IsPermitted, insert_memory-IsOwned, delete_memory-any_tenant,
}
use l5m.Tests.Audits.{hashing}
use l5m.Tests.Probes.{raw, raw_reads}
use l5m.Tests.Stores.{store}

abbrev key : ScopedKey
key = record { secret = 97 ∷ []; scope = read; tenant = some 7 }

-- The request claims another tenant.
abbrev headers : Headers
headers x_l5m_api_key = some (97 ∷ [])
headers x_l5m_tenant = some (56 ∷ [])
headers _ = none

abbrev principal : Principal
principal = record {
  tenant_id = 7;
  context_mask = all_ones;
  policy_mask = all_ones;
  trust_floor = 0;
  scope = read;
}

key_accepted : header_principal (key ∷ []) headers ≡ done principal
unfolding header_principal match_key find_key resolve_tenant resolve_rest parse_unsigned below
    from_str_radix parse_digits strip_plus to_digit add_digit
key_accepted = refl

header_principal-IsEntitled_example :
    (k : ScopedKey) × In k (key ∷ [])
    × (headers x_l5m_api_key ≡ some k.secret)
    × (principal.scope ≡ k.scope)
    × IsBoundTo k.tenant principal.tenant_id
header_principal-IsEntitled_example =
    header_principal-IsEntitled key [] headers principal key_accepted

abbrev clock : Clock
clock = record {
  Instant = ℕ;
  F64 = ℕ;
  elapsed = λ now last. now - last;
  add = λ a b. a + b;
  sub = λ a b. a - b;
  mul = λ a b. a * b;
  min = min;
  max = max;
  one = 1;
  at_least = λ a b. leb b a;
}

abbrev requests : List (ℕ × ℕ)
requests = (7, 0) ∷ (8, 0) ∷ (7, 0) ∷ (7, 1) ∷ (8, 1) ∷ []

decisions-isolated_example :
    filter (λ d. d.0 == 7) (decisions clock requests (new clock 1 2))
    ≡ decisions clock (filter (λ r. r.0 == 7) requests) (new clock 1 2)
decisions-isolated_example = decisions-isolated clock 7 requests (new clock 1 2)

authorize-IsPermitted_example :
    (header_principal (key ∷ []) headers ≡ done principal) × (rank read ≤ rank principal.scope)
unfolding header_principal match_key find_key resolve_tenant resolve_rest parse_unsigned below
    from_str_radix parse_digits strip_plus to_digit add_digit authorize authorize_found permit limit
    allow new
authorize-IsPermitted_example =
    authorize-IsPermitted clock (header_principal (key ∷ [])) read 3 headers (some (new clock 1 2))
      principal refl

insert_memory-IsOwned_example :
    (st : MemoryStore ℕ) × (insert_memory hashing (done principal) raw store ≡ ok (done st))
    × (raw_reads.0.tenant_id ≡ 7)
    × ((id : ℕ)
        → view st id ≡ (if raw_reads.0.capsule_id == id then some raw_reads.0 else view store id))
insert_memory-IsOwned_example =
    insert_memory-IsOwned hashing principal raw store raw_reads.0 refl raw_reads.1

-- The store holds a capsule of tenant 7 at 11, and the text is "11".
delete_memory-any_tenant_example :
    (st : MemoryStore ℕ) × (delete_memory hashing
        (done (record principal { tenant_id = 8 }))
        (49 ∷ 49 ∷ [])
        store
      ≡ ok (done st))
    × ((k : ℕ) → view st k ≡ (if 11 == k then none else view store k))
unfolding from_str_radix parse_digits strip_plus to_digit add_digit
delete_memory-any_tenant_example =
    delete_memory-any_tenant hashing (record principal { tenant_id = 8 }) (49 ∷ 49 ∷ []) 11 store
      refl refl
