-- ===== src/Tests/Nodes.antt =====
-- A node API over configs that can be compared.
use ne_xt_server.Base.{
  refl, ap, sym, ◌≡◌, ◌↔◌, ite, Bool, true, false, none, List, [], arith, ℕ_discrete,
}
use Prim.Native.String.{String}
use ne_xt_server.Base.Text.{String_discrete}
use ne_xt_server.Base.Int.{ℤ_discrete}
use ne_xt_server.Adapter.{User}
use ne_xt_server.Base.Result.{ok}
use ne_xt_server.Panel.Config.{NodeConfig, NodeType, AcmeOptions, InboundTlsOptions, Transport}
use ne_xt_server.Server.State.{NodeApi}
use ne_xt_server.Server.Node.{Made}

NodeType_discrete : Discrete NodeType
NodeType_discrete = hlevel ℤ_discrete

Acme_discrete : Discrete AcmeOptions
Acme_discrete = hlevel String_discrete

Tls_discrete : Discrete InboundTlsOptions
Tls_discrete = hlevel (String_discrete, Acme_discrete)

Transport_discrete : Discrete Transport
Transport_discrete = hlevel String_discrete

pub NodeConfig_discrete : Discrete NodeConfig
NodeConfig_discrete =
    hlevel (ℕ_discrete, String_discrete, NodeType_discrete, Tls_discrete, Transport_discrete)

abbrev pub deep_equal : NodeConfig → NodeConfig → Bool
deep_equal a b = ite (NodeConfig_discrete a b) true false

pub deep_equal_iff : (a b : NodeConfig) → (deep_equal a b ≡ true) ↔ (a ≡ b)
deep_equal_iff a b = ground arith

-- A node server is its config and its users.
abbrev pub nodes : NodeApi
nodes = record {
  NodeServer = NodeConfig × List User;
  Error = Unit;
  Regexp = String;
  new_server = λ c. ok (c, []);
  update_users = λ n users. ((n.0, users), none);
  start_server = λ n. (n, none);
  deep_equal = deep_equal;
  deep_equal_iff = deep_equal_iff;
}

pub made_eq : (c : NodeConfig) (n : NodeConfig × List User) → nodes.new_server c ≡ ok n → n.0 ≡ c
made_eq c n h =
    let start : NodeConfig × List User = (c, []) in
    let same : start ≡ n = cc in ap (λ x. x.0) (sym same)

abbrev pub nodes_made : Made nodes
nodes_made = record {
  made_with = λ n. n.0;
  made = made_eq;
  filled = λ n users. refl;
  started = λ n. refl;
}
