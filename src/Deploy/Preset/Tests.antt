-- ===== src/Deploy/Preset/Tests.antt =====
-- The theorems on presets at work on a small server whose port 443 is taken.
use zenith_panel.Common.{
  ℕ, ◌≡◌, ◌≤◌, ◌<◌, ◌*◌, refl, List, [], ◌∷◌, ok, Bool, true, false, Text, codes, arith,
}
use zenith_panel.Deploy.Plan.{negsuc, ProbeResult, Input, DeployPlan}
use zenith_panel.Deploy.Preset.{
  Secrets, expand, set_server_address, add_host_specific_tuning, speed_plan,
}
use zenith_panel.Deploy.Preset.Ports.{
  IsPicked, pick_port_excluding, preferred_or_443, port_fallbacks, pick_port_excluding-IsPicked,
}
use zenith_panel.Deploy.Preset.Merge.{udp_buffer, udp_buffer-between}
use zenith_panel.Deploy.Preset.Laws.{IsReady, expand-IsReady}

abbrev small_server : ProbeResult
small_server = record {
  is_root = true;
  has_cake = true;
  v4 = codes "192.0.2.1";
  v6 = [];
  cpu_cores = 2;
  advice = [];
  nic_primary = codes "eth0";
  link_speed_mbps = negsuc 0;
  rx_queues = 1;
  port_avail = (443, false) ∷ [];
  inbound_ports = 8443 ∷ [];
}

abbrev no_input : Input
no_input = record {
  domain = [];
  email = [];
  port_override = 0;
  reality_target = [];
  cert_path_option = [];
  key_path_option = [];
}

abbrev secrets : Secrets
secrets = record {
  reality_keys = ok (codes "priv", codes "pub");
  short_id = ok (codes "0123456789abcdef");
  client_id = codes "client";
  hy2_password = ok (codes "one");
  tuic_id = codes "user";
  tuic_password = ok (codes "two");
}

pick_port_excluding-IsPicked_example :
    IsPicked small_server
      (2053 ∷ [])
      (preferred_or_443 8443)
      (preferred_or_443 8443 ∷ port_fallbacks)
      (pick_port_excluding 8443 small_server (codes "udp") (2053 ∷ [])).0
pick_port_excluding-IsPicked_example =
    pick_port_excluding-IsPicked 8443 small_server (codes "udp") (2053 ∷ [])

udp_buffer-between_example : (4194304 ≤ udp_buffer (negsuc 0)) × (udp_buffer (negsuc 0) ≤ 67108864)
udp_buffer-between_example = udp_buffer-between (negsuc 0)

abbrev speed_ready : DeployPlan
speed_ready =
    set_server_address small_server no_input
      (add_host_specific_tuning small_server (speed_plan no_input small_server (codes "one")))

expands_speed : expand secrets (codes "speed") small_server no_input ≡ ok speed_ready
unfolding expand zenith_panel.Common.text_beq
expands_speed = refl

expand-IsReady_example : IsReady small_server no_input speed_ready
expand-IsReady_example =
    expand-IsReady secrets (codes "speed") small_server no_input speed_ready expands_speed
