-- ===== src/ModelControl/Profile.antt =====
-- internal/modelcontrol/route.go and the demotion bias and the guarded call of resilience.go.
pub mod Attestation
pub mod Routing
pub mod Demotion
pub mod Invoke
mod Tests
use jacu_harness.Base.{ℕ, String, Bool, List}
use jacu_harness.Base.Int.{ℤ}

pub record SignedCli : Type 0 where
  pub path : String
  pub sha256 : String
  pub signer : String
  pub signature : String

-- `rank` and `capability` are `int`, `max_context_tokens` is `uint32`.
pub record HostProfile : Type 0 where
  pub id : String
  pub lane : String
  pub rank : ℤ
  pub capability : ℤ
  pub contracts : List String
  pub max_context_tokens : ℕ
  pub available : Bool
  pub cli : SignedCli

pub record RouteRequest : Type 0 where
  pub lane : String
  pub contract : String
  pub input_tokens : ℕ
  pub output_tokens : ℕ
  pub required_capability : ℤ

-- `SignatureVerifier`: what the host supplies.
abbrev pub SignatureVerifier : Type 0
SignatureVerifier = SignedCli → Bool
