-- ===== src/Deploy/Preset.antt =====
-- `Expand` and the preset expanders of deploy/preset.go. The generated secrets come as an argument.
-- The settings and stream fields that are the same for every plan are left out, and the quotes around
-- an unknown name.
pub mod Ports
pub mod Merge
pub mod Laws
mod Tests
use zenith_panel.Common.{
  ℕ, ◌+◌, List, [], ◌∷◌, ◌++◌, Option, none, some, Bool, true, false, ◌&&◌, Text, codes, text_eq,
  nat_eq, if◌then◌else◌, ◌==◌, ltb, not, Result, ok, err, wrap, take, map,
}
use zenith_panel.Common.Decimal.{format_uint}
use zenith_panel.Deploy.Plan.{
  Advice, ProbeResult, Input, CertInput, TuneSpec, TlsStream, RealitySettings, Settings,
  InboundSpec, DeployPlan,
}
use zenith_panel.Deploy.Preset.Ports.{pick_port, pick_port_excluding}
use zenith_panel.Deploy.Preset.Merge.{udp_buffer_params, merge}

-- What the random source gives to one call, in the order of use; the identifiers cannot fail.
pub record Secrets : Type 0 where
  pub reality_keys : Result (Text × Text)
  pub short_id : Result Text
  pub client_id : Text
  pub hy2_password : Result Text
  pub tuic_id : Text
  pub tuic_password : Result Text

abbrev no_cert_input : CertInput
no_cert_input = record { domain = []; email = []; public_ip = []; cert_path = []; key_path = [] }

abbrev pub op : Text → TuneSpec
op name = record { op_name = name; params = [] }

abbrev nofile : TuneSpec
nofile = record { op_name = codes "systemd_nofile"; params = (codes "limit", codes "1048576") ∷ [] }

-- `if note != "" { plan.Notes = append(plan.Notes, note) }`.
abbrev add_note : Text → List Text
add_note note = if note == [] then [] else note ∷ []

unfoldable pub pick_cert_mode : Input → ProbeResult → Text × CertInput
pick_cert_mode input probe =
    if not (input.cert_path_option == []) && not (input.key_path_option == [])
    then (
      codes "existing",
      record no_cert_input { cert_path = input.cert_path_option; key_path = input.key_path_option },
    )
    else if not (input.domain == [])
    then (codes "acme", record no_cert_input { domain = input.domain; email = input.email })
    else (codes "self_signed", record no_cert_input { public_ip = probe.v4 })

unfoldable cert_stream : Text → CertInput → Text → TlsStream
cert_stream mode ci domain = record {
  server_name = if domain == [] then ci.public_ip else domain;
  certificate_path = if mode == codes "existing" then ci.cert_path else [];
  key_path = if mode == codes "existing" then ci.key_path else [];
  insecure = mode == codes "self_signed";
}

abbrev insecure_note : Text → List Text
insecure_note mode =
    if mode == codes "self_signed"
    then codes
        "No domain provided — generating a self-signed cert. Clients will need to allow insecure TLS."
      ∷ []
    else []

abbrev reality_target_or : Text → Text
reality_target_or target = if target == [] then codes "www.apple.com" else target

reality_inbound : Text → Text × Text → Text → Text → ℕ → InboundSpec
reality_inbound target keys short client_id port = record {
  engine = codes "xray";
  protocol = codes "vless";
  tag = codes "smart-stable-egress-" ++ take 6 short;
  port = port;
  network = codes "tcp";
  settings = Settings.vless client_id (codes "default");
  reality = some (record {
    dest = target ++ codes ":443";
    server_names = target ∷ [];
    private_key = keys.0;
    public_key = keys.1;
    short_ids = short ∷ [];
  });
  tls = none;
  remark = codes "Smart Deploy — stable egress (Reality)";
  server_address = [];
}

stable_plan : Input → ProbeResult → Text × Text → Text → Text → DeployPlan
unfolding reality_inbound
stable_plan input probe keys short client_id =
    let (port, note) = pick_port 443 input.port_override probe (codes "tcp") in
    record {
      preset_id = codes "stable_egress";
      inbounds =
          reality_inbound (reality_target_or input.reality_target) keys short client_id port ∷ [];
      tuning =
          op (codes "bbr_fq")
          ∷ op (codes "sysctl_network")
          ∷ op (codes "tcp_fastopen_full")
          ∷ nofile
          ∷ op (codes "time_sync_enable")
          ∷ [];
      cert_mode = codes "reality";
      cert_input = no_cert_input;
      firewall_allow_port = port ∷ [];
      notes = add_note note;
    }

unfoldable expand_stable_egress : Secrets → ProbeResult → Input → Result DeployPlan
unfolding stable_plan
expand_stable_egress secrets probe input = elim secrets.reality_keys [
  | err e ↦ err (codes "generate reality keys: " ++ e)
  | ok keys ↦ elim secrets.short_id [
    | err e ↦ err e
    | ok short ↦ ok (stable_plan input probe keys short secrets.client_id)
  ]
]

-- An inbound of sing-box; both speak UDP under the certificate.
udp_inbound : Text → Text → Settings → TlsStream → Text → ℕ → InboundSpec
udp_inbound protocol tag settings stream remark port = record {
  engine = codes "singbox";
  protocol = protocol;
  tag = tag;
  port = port;
  network = codes "udp";
  settings = settings;
  reality = none;
  tls = some stream;
  remark = remark;
  server_address = [];
}

-- The tuning of the presets that speak UDP.
udp_tuning : Text → ProbeResult → List TuneSpec
udp_tuning qdisc probe =
    op qdisc
    ∷ op (codes "sysctl_network")
    ∷ record {
      op_name = codes "udp_buffers_large";
      params = udp_buffer_params probe.link_speed_mbps;
    }
    ∷ op (codes "tcp_fastopen_full")
    ∷ nofile
    ∷ op (codes "time_sync_enable")
    ∷ []

speed_plan : Input → ProbeResult → Text → DeployPlan
unfolding udp_inbound udp_tuning pick_cert_mode cert_stream
speed_plan input probe password =
    let (port, note) = pick_port 443 input.port_override probe (codes "udp") in
    let (mode, ci) = pick_cert_mode input probe in
    record {
      preset_id = codes "speed";
      inbounds =
          udp_inbound (codes "hysteria2") (codes "smart-speed-hy2")
            (Settings.hysteria2 (codes "default") password) (cert_stream mode ci input.domain)
            (codes "Smart Deploy — speed (Hysteria2)") port
          ∷ [];
      tuning = udp_tuning (codes "bbr_fq") probe;
      cert_mode = mode;
      cert_input = ci;
      firewall_allow_port = port ∷ [];
      notes = add_note note ++ insecure_note mode;
    }

unfoldable expand_speed : Secrets → ProbeResult → Input → Result DeployPlan
unfolding speed_plan
expand_speed secrets probe input = elim secrets.hy2_password [
  | err e ↦ err e
  | ok password ↦ ok (speed_plan input probe password)
]

-- Both plans of a combination.
combined : DeployPlan → DeployPlan → DeployPlan
combined stable speed = record {
  preset_id = codes "combo";
  inbounds = stable.inbounds ++ speed.inbounds;
  tuning = merge (λ t. t.op_name) stable.tuning speed.tuning;
  cert_mode = speed.cert_mode;
  cert_input = speed.cert_input;
  firewall_allow_port = merge (λ p. p) stable.firewall_allow_port speed.firewall_allow_port;
  notes = stable.notes ++ speed.notes;
}

unfoldable expand_combo : Secrets → ProbeResult → Input → Result DeployPlan
unfolding expand_stable_egress expand_speed combined
expand_combo secrets probe input = elim (expand_stable_egress secrets probe input) [
  | err e ↦ err e
  | ok stable ↦ elim (expand_speed secrets probe input) [
    | err e ↦ err e
    | ok speed ↦ ok (combined stable speed)
  ]
]

weak_plan : Input → ProbeResult → Text → Text → Text → DeployPlan
unfolding udp_inbound udp_tuning pick_cert_mode cert_stream
weak_plan input probe hy2_password tuic_id tuic_password =
    let (hy2_port, hy2_note) = pick_port 443 input.port_override probe (codes "udp") in
    let (tuic_port, tuic_note) = pick_port_excluding 8443 probe (codes "udp") (hy2_port ∷ []) in
    let (mode, ci) = pick_cert_mode input probe in
    let stream = cert_stream mode ci input.domain in
    record {
      preset_id = codes "weak_network";
      inbounds =
          udp_inbound (codes "hysteria2") (codes "smart-weaknet-hy2")
            (Settings.hysteria2 (codes "default") hy2_password) stream
            (codes "Smart Deploy — weak network (Hysteria2)") hy2_port
          ∷ udp_inbound (codes "tuic") (codes "smart-weaknet-tuic")
              (Settings.tuic tuic_id tuic_password (codes "default")) stream
              (codes "Smart Deploy — weak network (TUIC)") tuic_port
          ∷ [];
      tuning = udp_tuning (if probe.has_cake then codes "qdisc_cake" else codes "bbr_fq") probe;
      cert_mode = mode;
      cert_input = ci;
      firewall_allow_port = hy2_port ∷ tuic_port ∷ [];
      notes = add_note hy2_note ++ add_note tuic_note ++ insecure_note mode;
    }

unfoldable expand_weak_network : Secrets → ProbeResult → Input → Result DeployPlan
unfolding weak_plan
expand_weak_network secrets probe input = elim secrets.hy2_password [
  | err e ↦ err e
  | ok hy2_password ↦ elim secrets.tuic_password [
    | err e ↦ err e
    | ok tuic_password ↦ ok (weak_plan input probe hy2_password secrets.tuic_id tuic_password)
  ]
]

unfoldable needs_rps : ProbeResult → Bool
needs_rps probe =
    not (probe.nic_primary == []) && ltb 0 probe.rx_queues && ltb probe.rx_queues probe.cpu_cores

unfoldable rps_spread : ProbeResult → TuneSpec
rps_spread probe = record {
  op_name = codes "rps_spread";
  params = (codes "iface", probe.nic_primary) ∷ (codes "cpus", format_uint probe.cpu_cores) ∷ [];
}

rps_note : ProbeResult → Text
rps_note probe =
    probe.nic_primary
    ++ codes " has "
    ++ format_uint probe.rx_queues
    ++ codes " RX queue(s) for "
    ++ format_uint probe.cpu_cores
    ++ codes " CPUs — enabling RPS/RFS to spread packet processing across all cores."

warnings : List Advice → List Text
warnings [] = []
warnings (a ∷ advice) =
    if a.level == codes "warn" then a.text ∷ warnings advice else warnings advice

unfoldable add_host_specific_tuning : ProbeResult → DeployPlan → DeployPlan
unfolding needs_rps rps_spread rps_note warnings
add_host_specific_tuning probe plan =
    if needs_rps probe
    then record plan {
      tuning = plan.tuning ++ (rps_spread probe ∷ []);
      notes = plan.notes ++ (rps_note probe ∷ []) ++ warnings probe.advice;
    }
    else record plan { notes = plan.notes ++ warnings probe.advice }

unfoldable pub address_of : ProbeResult → Input → Text
address_of probe input = if input.domain == [] then probe.v4 else input.domain

unfoldable fill_address : Text → InboundSpec → InboundSpec
fill_address address spec =
    if spec.server_address == [] then record spec { server_address = address } else spec

unfoldable set_server_address : ProbeResult → Input → DeployPlan → DeployPlan
unfolding address_of fill_address
set_server_address probe input plan = record plan {
  inbounds = map (fill_address (address_of probe input)) plan.inbounds;
}

-- What is added to the plan of every preset.
unfoldable finish : ProbeResult → Input → Result DeployPlan → Result DeployPlan
unfolding add_host_specific_tuning set_server_address
finish probe input (err e) = err e
finish probe input (ok plan) =
    ok (set_server_address probe input (add_host_specific_tuning probe plan))

pub expand : Secrets → Text → ProbeResult → Input → Result DeployPlan
unfolding expand_stable_egress expand_speed expand_combo expand_weak_network finish
expand secrets preset_id probe input =
    if preset_id == codes "stable_egress"
    then finish probe input (expand_stable_egress secrets probe input)
    else if preset_id == codes "speed"
    then finish probe input (expand_speed secrets probe input)
    else if preset_id == codes "combo"
    then finish probe input (expand_combo secrets probe input)
    else if preset_id == codes "weak_network"
    then finish probe input (expand_weak_network secrets probe input)
    else err (codes "unknown preset: " ++ preset_id)
