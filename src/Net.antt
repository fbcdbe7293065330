-- ===== src/Net.antt =====
-- `SocketAddr` of std::net, and the `RecvInfo` and `SendInfo` of `quiche`.
use native.Mathlib.Decide.{ℕ_discrete}
use rtt.Prelude.{ℕ, List}
use rtt.Prelude.Collections.{list_discrete}

-- `IpAddr`, by its octets
pub data IpAddr : Type 0 where
  v4 v6 : List ℕ → IpAddr

pub record SocketAddr : Type 0 where
  pub ip : IpAddr
  pub port : ℕ

bytes_discrete : Discrete (List ℕ)
unfolding list_discrete
bytes_discrete = list_discrete ℕ_discrete

unfoldable pub IpAddr-discrete : Discrete IpAddr
unfolding bytes_discrete
IpAddr-discrete = hlevel bytes_discrete

unfoldable pub SocketAddr-discrete : Discrete SocketAddr
unfolding IpAddr-discrete
SocketAddr-discrete = hlevel (IpAddr-discrete, ℕ_discrete)

pub record RecvInfo : Type 0 where
  pub from : SocketAddr
  pub to : SocketAddr

pub record SendInfo : Type 0 where
  pub from : SocketAddr
  pub to : SocketAddr
  pub at : ℕ
