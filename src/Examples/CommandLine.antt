-- ===== src/Examples/CommandLine.antt =====
-- The theorems on the commands of the client at work.
use microovn.Prelude.{
  String, Bool, true, false, some, List, [], ◌∷◌, ◌≡◌, refl, ◌==◌, if◌then◌else◌,
}
use microovn.Text.{is_int, split, trim_space, parse_uint}
use microovn.Types.{
  ExtraBgpConfig, empty_bgp_config, from_map, set_options, validate, parse_external_connection,
  parse_bridge,
}
use microovn.Effect.{
  Env, Call, Reply, issue, out, fail, ok, call, attempt, on_error, transaction, ◌>>=◌,
}
use microovn.Cli.Init.Dialogue.{Tools, no_values, init_command}
use microovn.Cli.Init.Dialogue.Checked.{AllChecked, init_command-AllChecked}
use microovn.Cli.ServiceControl.{parse_extra_config, parse_pairs, choose_config, cut}
use microovn.Cli.ServiceControl.Sent.{Sent, parse_extra_config-Sent}
use microovn.Config.{set_config}
use microovn.Config.Map.{option}
use microovn.Database.Config.{
  create_config_item, update_config_item, config_item_exists, get_config_item_id,
}
use microovn.ApiCertificates.{new_regenerate_ca_response}
use microovn.ApiConfig.{
  answered, parse_config_request, validate_ovn_central_ips, check_ips, ovn_central_ips_updated,
  handle_set,
}
use microovn.Client.{Decoders, request_set}
use microovn.Cli.Printing.{say}
use microovn.Cli.ConfigCommands.{config_set_command}
use microovn.Cli.ConfigCommands.Told.{config_set_command-option}
use microovn.Examples.{env, start_world}

-- microovn enable bgp --config br=br0 --config asn=4200000007 --manual-bgpd-config
abbrev flags : List String
flags = "br=br0" ∷ "asn=4200000007" ∷ []

abbrev asked : ExtraBgpConfig
asked = record empty_bgp_config { bridge = "br0"; asn = "4200000007"; manual_bgpd_config = true }

flags_run : parse_extra_config true flags "bgp" ≡ ok (some asked)
unfolding parse_extra_config parse_pairs choose_config cut from_map set_options validate
    parse_external_connection parse_bridge is_int split trim_space parse_uint
flags_run = refl

parse_extra_config-Sent_example : Sent true flags "bgp" (some asked)
parse_extra_config-Sent_example = parse_extra_config-Sent true flags "bgp" (some asked) flags_run

abbrev tools : Tools
tools = record {
  yes = λ s. true;
  is_terminal = λ s. false;
  decode = λ s. record no_values { mode = "bootstrap"; services = "central" };
  status = λ s. 503;
  interface_address = "10.0.0.1";
  canonical = λ s. s;
  is_network_address = λ s. ok tt;
  is_not_empty = λ s. ok tt;
}

-- The member is not initialised.
abbrev fresh_reply : Call → Reply
fresh_reply (issue name args) = if name == "GetClusterMembers" then fail "503" else out ""
fresh_reply c = out ""

abbrev fresh : Env
fresh = record env { respond = λ calls c. fresh_reply c }

-- It is initialised with a preseed.
init_command-AllChecked_example :
    AllChecked fresh tools (init_command fresh tools 3 "" start_world).1.calls
init_command-AllChecked_example =
    init_command-AllChecked fresh tools 3 "" start_world (unfold AllChecked in tt)

abbrev json : Decoders
json = record {
  services = λ s. [];
  issued = λ s. record { success = []; failed = [] };
  ca = λ s. new_regenerate_ca_response;
  ca_info = λ s. record { auto_renew = true; error = "" };
  version = λ s. s;
  report = λ s. [];
  control =
      λ s. record { message = s; warnings = record { even_central = false; few_central = false } };
  regenerated = λ s. record { success = true; errors = [] };
  answer = λ s. answered true s;
  value = λ s. record { success = true; error = ""; is_set = false; value = "" };
  setup = λ s. record { success = true; message = s; errors = [] };
  bgp_config = λ c. "";
  status = λ s. 0;
}

abbrev any_ip : String → Bool
any_ip s = true

endpoint_runs :
    (handle_set env any_ip "ovn.central-ips" "10.0.0.9" start_world).0 ≡ ok (answered true "")
unfolding handle_set ovn_central_ips_updated parse_config_request validate_ovn_central_ips check_ips
    set_config create_config_item update_config_item config_item_exists get_config_item_id
    transaction call on_error attempt split ◌>>=◌
endpoint_runs = refl

command_runs : (config_set_command env json "ovn.central-ips" "10.0.0.9" start_world).0 ≡ ok tt
unfolding config_set_command request_set say call on_error attempt ◌>>=◌
command_runs = refl

carried :
    (cs : List Call) (body : String)
    → env.respond cs (issue "POST" ("config" ∷ "ovn.central-ips" ∷ "10.0.0.9" ∷ [])) ≡ out body
    → (json.answer body).error ≡ ""
carried cs body h = cc

config_set_command-option_example :
    (parse_config_request any_ip "ovn.central-ips" (some "10.0.0.9") ≡ ok tt)
    × (option (handle_set env any_ip "ovn.central-ips" "10.0.0.9" start_world).1 "ovn.central-ips"
        ≡ some "10.0.0.9")
config_set_command-option_example =
    config_set_command-option env json start_world env any_ip "ovn.central-ips" "10.0.0.9"
      start_world (answered true "") "ovn.central-ips" endpoint_runs carried command_runs
