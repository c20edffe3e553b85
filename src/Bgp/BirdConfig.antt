-- ===== src/Bgp/BirdConfig.antt =====
-- microovn/bgp/service.go: the configuration of the BIRD daemon, which the template birdConfTemplate makes.
use microovn.Prelude.{String, code, List, [], ◌∷◌, eqb, if◌then◌else◌}
use microovn.Text.{◌<>◌, cons}
use microovn.Bgp.Names.{get_bgp_redirect_iface_name}

-- `birdTemplateInput`
pub record BirdTemplateInput : Type 0 where
  pub vrf_table_id : String
  pub vrf_name : String
  pub router_id : String
  pub bridges : List String
  pub asn : String

-- `birdName`: `strings.ReplaceAll(s, "-", "_")`
unfoldable pub bird_name : String → String
bird_name String.[] = ""
bird_name (String.◌∷◌ c s) =
    let rest = bird_name s in if eqb (code c) b'-' then "_" <> rest else cons c rest

-- The protocols that come before those of the bridges.
abbrev pub bird_head : BirdTemplateInput → String
bird_head input =
    "\nlog syslog all;\nprotocol device {};\nprotocol direct {\n\tdisabled;\t# Disable learning directly connected routes\n"
    <> "\tipv4;\n\tipv6;\n}\n\nprotocol kernel kernel4 {\n\tipv4 {\n\t\texport all;\n"
    <> "\t};\n\tlearn;\n\tkernel table " <> input.vrf_table_id
    <> ";\n\tmerge paths yes;\n}\n\nprotocol kernel kernel6 {\n\tipv6 {\n\t\texport all;\n"
    <> "\t};\n\tlearn;\n\tkernel table " <> input.vrf_table_id
    <> ";\n\tmerge paths yes;\n}\n\nprotocol static {\n\tipv4;\n}\n\nprotocol bfd {\n"
    <> "\t# The BIRD BFD code is currently not fully VRF aware, as long as we\n"
    <> "\t# only have interfaces in VRFs, using strict bind allows it to work.\n"
    <> "\t#\n\t# In the event we some time in the future want to speak on both VRF\n"
    <> "\t# and non-VRF interfaces, we can instantiate multiple BFD instances.\n"
    <> "\t#\n\t# Ref: https://bird.network.cz/?get_doc&v=30&f=bird-6.html#ss6.3\n"
    <> "\tstrict bind yes;\n}\n\nfilter no_default_v4 {\n\tif net = 0.0.0.0/0 then reject;\n"
    <> "\taccept;\n}\n\nfilter no_default_v6 {\n\tif net = ::/0 then reject;\n" <> "\taccept;\n}\n"

-- The protocol of one bridge.
unfoldable pub bird_protocol : BirdTemplateInput → String → String
bird_protocol input bridge =
    "\nprotocol bgp microovn_"
    <> bird_name bridge
    <> " {\n\trouter id "
    <> input.router_id
    <> ";\n\tinterface \""
    <> get_bgp_redirect_iface_name bridge
    <> "\";\n\tvrf \""
    <> input.vrf_name
    <> "\";\n\tlocal as "
    <> input.asn
    <> ";\n\tneighbor range fe80::/10 external;\n\tdynamic name \"dyn_microovn_"
    <> bird_name bridge
    <> "_\";\n\tipv4 {\n\t\tnext hop self ebgp;\n\t\textended next hop on;\n\t\trequire extended next hop on;\n"
    <> "\t\timport all;\n\t\texport filter no_default_v4;\n\t};\n\tipv6 {\n\t\timport all;\n"
    <> "\t\texport filter no_default_v6;\n\t};\n\tbfd {\n\t\t# We only want to use BFD for liveness and failure detection if\n"
    <> "\t\t# our peer has it configured.\n\t\tpassive yes;\n\t};\n}\n"

unfoldable pub bird_protocols : BirdTemplateInput → List String → String
bird_protocols input [] = ""
bird_protocols input (bridge ∷ bridges) = bird_protocol input bridge <> bird_protocols input bridges

-- What `birdConfTemplate.Execute` writes.
unfoldable pub bird_config_text : BirdTemplateInput → String
bird_config_text input = bird_head input <> bird_protocols input input.bridges <> "\n"
