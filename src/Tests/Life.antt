-- ===== src/Tests/Life.antt =====
-- The program's start and its recovery at concrete inputs.

use ne_xt_server.Server.New.{
  ServerOptions, IsSafe, new_server_settings, ServerSettings, with_front_proxy,
  new_server_settings-IsSafe, private_filter, front_proxy, new_front_proxy, finished, socks5_client,
  default_dialer, default_pull_interval,
}
use ne_xt_server.Base.{ℕ, ◌≡◌, refl, true, false, some, List, [], ◌∷◌}
use ne_xt_server.Base.Int.{pos}
use ne_xt_server.Base.Result.{ok}
use ne_xt_server.Panel.Config.{NodeConfig, trojan}
use ne_xt_server.Panel.Node.{empty_config}
use ne_xt_server.Server.State.{Server}
use ne_xt_server.Tests.Nodes.{nodes}
use ne_xt_server.Tests.Data.{ops, auditor, user}
use ne_xt_server.Users.Table.{new_user_table}

-- A node server listens on one port; the panel names another, and no users.
abbrev old : NodeConfig
old = record (empty_config trojan 1000) { listen_port = 443 }

abbrev moved_config : NodeConfig
moved_config = record (empty_config trojan 500) { listen_port = 8443 }

abbrev moving : Server ops nodes
moving = record {
  users = new_user_table;
  auditor = auditor;
  node_config = old;
  running_config = some old;
  node_server = some (old, user 1 ∷ []);
  user_list = user 1 ∷ [];
  last_push = 0;
  closed = [];
}

abbrev options : ServerOptions
options = record {
  front_proxy = some (record {
    type = "socks5";
    server = "127.0.0.1:1080";
    username = "";
    password = "";
    resolve_domain = false;
  });
  allow_private_destinations = false;
  pull_interval = pos 0;
  push_interval = pos 5;
}

abbrev settings : ServerSettings
settings = record {
  dialer = private_filter true (front_proxy socks5_client default_dialer);
  resolve_domain = false;
  pull_interval = default_pull_interval;
  push_interval = pos 5;
}

makes : new_server_settings options true true ≡ ok settings
unfolding new_server_settings with_front_proxy new_front_proxy finished
makes = refl

new_server_settings-IsSafe_example : IsSafe options settings
new_server_settings-IsSafe_example = new_server_settings-IsSafe options true true settings makes

-- "a\nbc"
abbrev prefix : List ℕ
prefix = 97 ∷ 10 ∷ 98 ∷ 99 ∷ []
