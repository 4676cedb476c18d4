-- ===== src/Tests/Panel.antt =====
-- A node config of a concrete answer.
use ne_xt_server.Base.{◌≡◌, refl, true, not, none, some, [], ◌∷◌}
use text.Mathlib.Text.{◌==◌ as str_eq}
use ne_xt_server.Base.Int.{pos, ℤ_discrete}
use ne_xt_server.Base.Assoc.{lookup}
use ne_xt_server.Base.Result.{ok}
use ne_xt_server.Panel.Config.{NodeConfig, NodeInfo, node_type, trojan, default_tls}
use ne_xt_server.Panel.Node.{
  ParseApi, parse_node_config, empty_custom, empty_config, build_tls, build_transport, configure,
  mbps_to_bytes, first_positive, with_port, custom_of, acme_domain, has_certificate,
}
use ne_xt_server.Panel.Settings.{IsRunnable, parse_node_config-IsRunnable}
use ne_xt_server.Tests.Data.{floats}

program : Unit {0}
unfolding parse_node_config node_type lookup ℤ_discrete build_tls build_transport configure
    mbps_to_bytes first_positive with_port custom_of acme_domain has_certificate
program = tt

abbrev parsing : ParseApi floats.Float
parsing = record {
  is_domain_name = λ s. not (str_eq s "");
  trim_space = λ c. c;
  unmarshal_custom = λ c. some (record (empty_custom floats) { offset_port_node = 8443 });
}

-- A Trojan node of 8 Mbps.
abbrev info : NodeInfo floats.Float
info = record {
  speed_limit = 8;
  sort = pos 14;
  server = "example.org";
  custom_config = 0x7b ∷ 0x7d ∷ [];
}

abbrev parsed : NodeConfig
parsed = record (empty_config trojan 1000000) {
  listen_port = 8443;
  tls = some (record default_tls { enabled = true; insecure = true; server_name = "example.org" });
}

parses : parse_node_config floats parsing none info ≡ ok parsed
unfolding program
parses = refl

parse_node_config-IsRunnable_example : IsRunnable (node_type info.sort) parsed
parse_node_config-IsRunnable_example =
    parse_node_config-IsRunnable floats parsing none info parsed parses
