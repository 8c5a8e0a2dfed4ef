-- ===== src/Server.antt =====
-- crates/l5m-server/src: who may do what. Principal has the credentials and the providers that
-- resolve them, Limit the rate limiter, and Authorize what each handler asks first.
pub mod Principal
pub mod Limit
pub mod Authorize
pub mod Query
use l5m.Prelude.{ℕ}

-- `Result`, of the server's own errors.
pub data Result {ℓ κ} (E : Type ℓ) (A : Type κ) : Type (ℓ ⊔ κ) where
  done : A → Result E A
  failed : E → Result E A
