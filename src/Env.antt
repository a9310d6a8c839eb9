-- ===== src/Env.antt =====
-- What the connection asks of the outside: random numbers and shuffles (`rand`), identifiers
-- (`uuid`), waiting (`tokio`), and the two unary calls (`tonic`) under their timeout. Each takes the
-- state of the outside and returns the next one, so that an execution is a function of the first.
use trogon_event_store_clien.Base.{ℕ, List, Option}
use trogon_event_store_clien.Base.Text.{Text}
use trogon_event_store_clien.Uuid.{Uuid}
use trogon_event_store_clien.Types.{Duration}
use trogon_event_store_clien.Errors.{Status}
use trogon_event_store_clien.Gossip.{WireMember}
use trogon_event_store_clien.Features.{SupportedMethods}

-- What comes of a call under `tokio::time::timeout`.
pub data Reply (A : Type 0) : Type 0 where
  timeout : Reply A
  failed : Status → Reply A
  answered : A → Reply A

pub record Env : Type 1 where
  pub World : Type 0
  pub next_u32 : World → ℕ × World
  pub shuffle : (A : Type 0) → List A → World → List A × World
  pub new_v4 : World → Uuid × World
  pub sleep : Duration → World → World
  pub get_supported_methods : Duration → Text → World → Reply SupportedMethods × World
  pub gossip_read : Duration → Text → World → Reply (List WireMember) × World
  pub parse_uuid : Text → Option Uuid
  pub status_to_string : Status → Text
