-- ===== src/ApiBgp.antt =====
-- microovn/api/bgp/endpoints.go and microovn/api/types/setup_bgp.go: BGP on all members of the cluster, and
-- BGP on the bridges that are tagged in the local Open_vSwitch database.
pub mod Tagged
pub mod Saved
use microovn.Prelude.{
  ℕ, String, Bool, true, false, not, ◌&&◌, ◌||◌, Option, none, some, List, [], ◌∷◌, ◌++◌, ◌==◌, eqb,
  length, map, if◌then◌else◌,
}
use microovn.Text.{◌<>◌, format, split, trim_space}
use microovn.Types.{ExtraBgpConfig, empty_bgp_config, from_map, parse_asn_range, parse_names}
use microovn.Database.{ConfigItem}
use microovn.Config.{set_config, get_config}
use microovn.Commands.{vs_ctl}
use microovn.Node.{has_service_active}
use microovn.Node.Bgp.{BgpService}
use microovn.Node.Lifecycle.{enable_service}
use microovn.Bgp.Names.{vsctl_get_if_exists}
use microovn.Api.{Response, sync, bad_request, internal_error, smart_error, Replies, cluster, query}
use microovn.Effect.{
  Env, Result, ok, err, panic, M, ret, raise, panics, attempt, either, lift, call, file, issue,
  on_error, errorf, wrapf, ◌>>=◌, ◌>>◌,
}

-- `SetupBgpRequest`
pub record SetupBgpRequest : Type 0 where
  pub config : ExtraBgpConfig
  pub connection_ip4_range : String

-- `SetupBgpRequest.Validate`
unfoldable pub validate_setup : SetupBgpRequest → Result (Unit {0})
validate_setup r =
    if r.config.external_connection == "" && r.config.bridge == ""
    then err (errorf "either --interface or --br must be provided")
    else if not (r.config.external_connection == "") && not (r.config.bridge == "")
    then err (errorf "--interface and --br are mutually exclusive")
    else ok tt

-- `SetupBgpResponse`
pub record SetupBgpResponse : Type 0 where
  pub success : Bool
  pub message : String
  pub errors : List String

abbrev pub key_cluster : String
key_cluster = "microovn-bgp-cluster"

abbrev pub key_interface : String
key_interface = "microovn-bgp-arg-interface"

abbrev pub key_bridge : String
key_bridge = "microovn-bgp-arg-br"

abbrev pub key_asn : String
key_asn = "microovn-bgp-arg-asn"

abbrev pub key_asn_range : String
key_asn_range = "microovn-bgp-arg-asn_range"

abbrev pub key_ip4_range : String
key_ip4_range = "microovn-bgp-arg-connection-ip4-range"

-- `item.Value`, and the default for a nil item.
abbrev pub value_or : String → Option ConfigItem → String
value_or d none = d
value_or d (some item) = item.value

module _ (env : Env) where
  -- `interfaceExists`
  unfoldable pub interface_exists : String → M Bool
  interface_exists name = do
    r ← attempt (call env (file "stat" (("/sys/class/net/" <> name) ∷ [])))
    either r (λ out. ret true) (λ e. ret false)

  -- `item, _ := config.GetConfig(…)`
  abbrev get_or_none : String → M (Option ConfigItem)
  get_or_none key = do r ← attempt (get_config env key); either r ret (λ e. ret none)

  abbrev require : String → String → M (Unit {0})
  require kind name = do
    exists ← interface_exists name
    if exists
        then ret tt
        else raise (errorf ("required BGP " <> kind <> " '" <> name <> "' not found on this node"))

  -- `CheckBgpInterfaceFromClusterConfig`
  unfoldable pub check_bgp_interface : M (Unit {0})
  check_bgp_interface = do
    iface ← get_or_none key_interface
    if not (value_or "" iface == "") then require "interface" (value_or "" iface) else do
      br ← get_or_none key_bridge
      if not (value_or "" br == "")
          then require "bridge" (value_or "" br)
          else raise (errorf "no BGP interface or bridge configured in cluster setup")

  -- The settings that `setupBgpHandler` saves: the key, the value, and the name in the error. An empty
  -- value, and a range of two zeros, is not saved.
  unfoldable pub settings : SetupBgpRequest → List (String × String × String)
  settings r =
      let c = r.config in
      let target =
        if not (c.external_connection == "")
        then (key_interface, c.external_connection, "interface/bridge")
        else (key_bridge, c.bridge, "interface/bridge") in
      let asn = if c.asn == "" then [] else (key_asn, c.asn, "ASN") ∷ [] in
      let range =
        if not (eqb c.asn_min 0) || not (eqb c.asn_max 0)
        then (key_asn_range, format c.asn_min <> "-" <> format c.asn_max, "ASN range") ∷ []
        else [] in
      let ip4 =
        if r.connection_ip4_range == ""
        then []
        else (key_ip4_range, r.connection_ip4_range, "connection IP range") ∷ [] in
      (key_cluster, "true", "cluster") ∷ target ∷ asn ++ range ++ ip4

  -- Save one after the other; the first failure ends it.
  unfoldable pub save : List (String × String × String) → M (Unit {0})
  save [] = ret tt
  save ((key, value, name) ∷ rest) = do
    on_error (wrapf ("failed to save BGP " <> name <> " config: ")) (set_config env key value)
    save rest

module _ (env : Env) (replies : Replies) where
  abbrev exists_error : String → String → Option Bool → List String
  exists_error url iface (some true) = []
  exists_error url iface _ = (url <> ": interface/bridge '" <> iface <> "' not found") ∷ []

  -- The first query: the errors of the members on which the interface is missing.
  unfoldable pub check_members : String → List String → M (List String)
  check_members iface [] = ret []
  check_members iface (url ∷ urls) = do
    r ← attempt (call env (issue "bgp/check-interface" (url ∷ iface ∷ [])))
    errs ←
        either r (λ out. ret (exists_error url iface (replies.exists out)))
          λ e. ret ((url <> ": failed to check interface: " <> e.message) ∷ [])
    rest ← check_members iface urls
    ret (errs ++ rest)

  abbrev setup_errors : String → Bool × List String → List String
  setup_errors url (true, errs) = []
  setup_errors url (false, errs) = map (λ e. "node " <> url <> ": " <> e) errs

  -- The second query: the errors of the members that fail to set BGP up, in the order of the replies.
  unfoldable pub set_up_members : List String → M (List String)
  set_up_members [] = ret []
  set_up_members (url ∷ urls) = do
    r ← attempt (call env (issue "bgp/setup" (url ∷ [])))
    errs ←
        either r (λ out. ret (setup_errors url (replies.setup out)))
          λ e. ret (("node " <> url <> ": " <> e.message) ∷ [])
    rest ← set_up_members urls
    ret (errs ++ rest)

module _ (env : Env) (bgp : BgpService) where
  abbrev parsed_range : ExtraBgpConfig → Option ConfigItem → Result ExtraBgpConfig
  parsed_range config none = ok config
  parsed_range config (some item) = from_map config (("asn_range", item.value) ∷ [])

  -- `EnableBgpOnNodeFromClusterConfig`
  unfoldable pub enable_bgp_from_cluster_config : M (Unit {0})
  enable_bgp_from_cluster_config = do
    iface ← on_error (wrapf "failed to read BGP interface config: ") (get_config env key_interface)
    br ← on_error (wrapf "failed to read BGP bridge config: ") (get_config env key_bridge)
    asn ← get_or_none env key_asn
    range ← get_or_none env key_asn_range
    let config = record empty_bgp_config {
      external_connection = value_or "" iface;
      bridge = value_or "" br;
      asn = value_or "" asn;
    }
    full ←
        on_error (wrapf "failed to parse ASN range from cluster config: ")
          (lift (parsed_range config range))
    enable_service env bgp "bgp" (some full)

  -- `findBridgesByExternalID`
  unfoldable pub find_bridges : String → String → M (List String)
  find_bridges key value = do
    output ← vs_ctl env (
        "--bare"
        ∷ "--columns"
        ∷ "name"
        ∷ "find"
        ∷ "bridge"
        ∷ ("external-ids:" <> key <> "=" <> value)
        ∷ [])
    ret (parse_names (split 10 (trim_space output)))

  abbrev read_key : String → String → M String
  read_key bridge key =
      on_error (wrapf ("failed to read " <> key <> " on bridge " <> bridge <> ": "))
        (vsctl_get_if_exists env "Bridge" bridge "external-ids" key)

  -- The ASN range of a bridge, two zeros if there is none.
  unfoldable pub read_range : String → M (ℕ × ℕ)
  read_range bridge = do
    range ← read_key bridge "microovn-bgp-asn-range"
    if range == ""
        then ret (0, 0)
        else on_error (wrapf ("invalid microovn-bgp-asn-range on bridge " <> bridge <> ": "))
            (lift (parse_asn_range range))

  -- What is read of a bridge; the range only if there is no ASN.
  unfoldable pub read_bridge : String → M ExtraBgpConfig
  read_bridge bridge = do
    vrf ← read_key bridge "microovn-bgp-vrf"
    asn ← read_key bridge "microovn-bgp-asn"
    range ← if asn == "" then read_range bridge else ret (0, 0)
    ret (record empty_bgp_config {
      bridge = bridge;
      vrf = vrf;
      asn = asn;
      asn_min = range.0;
      asn_max = range.1;
    })

  -- The loop of `EnableBgpFromOVSExternalIDs`.
  unfoldable pub enable_on_bridges : List String → M (Unit {0})
  enable_on_bridges [] = ret tt
  enable_on_bridges (bridge ∷ bridges) = do
    config ← read_bridge bridge
    on_error (wrapf ("failed to enable BGP from OVS external IDs on bridge " <> bridge <> ": "))
        (enable_service env bgp "bgp" (some config))
    enable_on_bridges bridges

  -- `EnableBgpFromOVSExternalIDs`
  unfoldable pub enable_bgp_from_ovs : M (Unit {0})
  enable_bgp_from_ovs = do
    active ←
        on_error (wrapf "failed to check switch service status: ") (has_service_active env "switch")
    if not active then ret tt else do
      bridges ←
          on_error (wrapf "failed to look up BGP-enabled OVS bridges: ")
            (find_bridges "microovn-bgp-enabled" "true")
      enable_on_bridges bridges

  -- The answer with the errors of all members.
  abbrev pub setup_answer : List String → Response SetupBgpResponse
  setup_answer [] =
      sync true
        (record { success = true; message = "BGP setup completed on all nodes"; errors = [] })
  setup_answer (e ∷ errs) = sync true (record {
    success = false;
    message = "BGP setup completed with " <> format (length (e ∷ errs)) <> " error(s)";
    errors = e ∷ errs;
  })

  -- The last part of `setupBgpHandler`, on the member itself; `errs` are the errors of the others.
  unfoldable pub set_up_local : List String → M (Response SetupBgpResponse)
  set_up_local errs = do
    r ← attempt enable_bgp_from_cluster_config
    either r (λ u. ret (setup_answer errs))
        λ e. ret (setup_answer (errs ++ ("node " <> env.name <> ": " <> e.message) ∷ []))

module _ (env : Env) (bgp : BgpService) (replies : Replies) where
  abbrev check_failed : List String → Response SetupBgpResponse
  check_failed errs = sync false (record {
    success = false;
    message = "Interface/bridge check failed on some nodes";
    errors = errs;
  })

  -- The name that the members look for.
  abbrev iface_name : SetupBgpRequest → String
  iface_name r = if r.config.bridge == "" then r.config.external_connection else r.config.bridge

  -- Once the members have been asked for the interface: `missing` are the errors of those without it.
  unfoldable pub set_up_all : List String → List String → M (Response SetupBgpResponse)
  set_up_all clients (e ∷ errs) = ret (check_failed (e ∷ errs))
  set_up_all clients [] = do
    q ← attempt (query env)
    either q (λ out. do errs ← set_up_members env replies clients; set_up_local env bgp errs)
        (λ e. ret (smart_error e))

  -- Once the clients are there.
  unfoldable pub set_up_cluster : SetupBgpRequest → List String → M (Response SetupBgpResponse)
  set_up_cluster req clients = do
    q ← attempt (query env)
    either q
        (λ out. do
          missing ← check_members env replies (iface_name req) clients
          set_up_all clients missing)
        (λ e. ret (smart_error e))

  -- `setupBgpHandler` for a request that is no notification: the settings are saved before the members are
  -- asked.
  unfoldable pub set_up_first : SetupBgpRequest → M (Response SetupBgpResponse)
  set_up_first req = do
    s ← attempt (save env (settings env req))
    either s
        (λ u. do
          c ← attempt (cluster env replies)
          either c (λ clients. set_up_cluster req clients)
              (λ e. ret (internal_error ("failed to get cluster clients: " <> e.message))))
        (λ e. ret (internal_error e.message))

  -- `setupBgpHandler`; `body` is the decoded request, if it can be decoded.
  unfoldable pub setup_bgp_handler : Bool → Option SetupBgpRequest → M (Response SetupBgpResponse)
  setup_bgp_handler true body = set_up_local env bgp []
  setup_bgp_handler false none = ret (bad_request "failed to decode request body")
  setup_bgp_handler false (some req) =
      either (validate_setup req) (λ u. set_up_first req) (λ e. ret (bad_request e.message))

  -- `checkInterfaceHandler`: the field `exists` of the answer.
  unfoldable pub check_interface_handler : String → M (Response Bool)
  check_interface_handler name =
      if name == ""
      then ret (bad_request "missing 'name' query parameter")
      else do exists ← interface_exists env name; ret (sync true exists)
