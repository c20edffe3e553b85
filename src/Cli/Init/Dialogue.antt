-- ===== src/Cli/Init/Dialogue.antt =====
-- microovn/cmd/microovn/init.go and preseed.go: the dialogue of `microovn init`, and the request to the daemon.
pub mod Checked
use microovn.Prelude.{
  ℕ, zero, suc, String, Bool, true, false, not, ◌&&◌, Option, none, some, is_none, List, [], ◌∷◌,
  ◌==◌, eqb, if◌then◌else◌,
}
use microovn.Text.{◌<>◌}
use microovn.Effect.{
  Env, Error, Result, Call, ok, err, panic, M, ret, raise, lift, attempt, either, call, issue,
  on_error, wrapf, ◌>>=◌, ◌>>◌,
}
use microovn.Cli.Init.{
  InitValues, validate_init, validate_services, validate_encapsulation_ip, validate_ca_path,
  apply_defaults, init_config,
}
use microovn.Cli.Printing.{say}

-- What lxd's packages and yaml.v3 give: an answer of `AskBool`, whether the standard input is a terminal,
-- the values of a preseed, the HTTP status of an error, the address of the host with
-- `util.CanonicalNetworkAddress`, and the checks of the package validate.
pub record Tools : Type 0 where
  pub yes : String → Bool
  pub is_terminal : String → Bool
  pub decode : String → InitValues
  pub status : String → ℕ
  pub interface_address : String
  pub canonical : String → String
  pub is_network_address : String → Result (Unit {0})
  pub is_not_empty : String → Result (Unit {0})

-- `InitValues{}`
abbrev pub no_values : InitValues
no_values = record {
  mode = "";
  name = "";
  address = "";
  services = "";
  token = "";
  custom_encapsulation_ip = "";
  custom_ca_cert = "";
  custom_ca_key = "";
  additional_servers = [];
}

abbrev flatten : List (String × String) → List String
flatten [] = []
flatten ((key, value) ∷ rest) = key ∷ value ∷ flatten rest

-- `m.NewCluster` or `m.JoinCluster`; the extension custom_encapsulation_ip is one of `Extensions()`.
unfoldable pub cluster_request : InitValues → Call
cluster_request iv =
    if iv.mode == "bootstrap"
    then issue "NewCluster" (iv.name ∷ iv.address ∷ flatten (init_config true iv))
    else issue "JoinCluster" (iv.name ∷ iv.address ∷ iv.token ∷ flatten (init_config true iv))

module _ (env : Env) (tools : Tools) where
  unfoldable pub ask_string : String → String → M String
  ask_string question default = call env (issue "AskString" (question ∷ default ∷ []))

  unfoldable pub ask_bool : String → M Bool
  ask_bool question = do
    out ← call env (issue "AskBool" (question ∷ "no" ∷ []))
    ret (tools.yes out)

  -- `askCustomEncapsulationIP`, with an empty address for none.
  unfoldable pub ask_encapsulation_ip : M String
  ask_encapsulation_ip = do
    wants ←
        ask_bool
          "Would you like to define a custom encapsulation IP address for this member? (yes/no) [default=no]: "
    if wants
        then (do
          ip ← ask_string "Please enter the custom encapsulation IP address for this member: " ""
          lift (validate_encapsulation_ip tools.is_network_address tools.is_not_empty ip)
          ret ip)
        else ret ""

  -- `askCustomCA`
  unfoldable pub ask_custom_ca : M (String × String)
  ask_custom_ca = do
    wants ←
        ask_bool
          "Would you like to provide your own CA certificate and private key for issuing OVN TLS certificates? (yes/no) [default=no]: "
    if wants
        then (do
          cert ← ask_string "Please enter the path to the CA certificate file: " ""
          lift (validate_ca_path tools.is_network_address tools.is_not_empty cert)
          key ← ask_string "Please enter the path to the CA private key file: " ""
          lift (validate_ca_path tools.is_network_address tools.is_not_empty key)
          ret (cert, key))
        else ret ("", "")

  -- `askServices`
  unfoldable pub ask_services : M String
  ask_services = do
    services ←
        ask_string
          "Please select comma-separated list services you would like to enable on this node (central/chassis/switch) or let MicroOVN automatically decide (auto) [default=auto]: "
          "auto"
    lift (validate_services services)
    ret services

  unfoldable pub ask_bootstrap : InitValues → M InitValues
  ask_bootstrap iv = do
    hostname ←
        on_error (wrapf "failed to retrieve system hostname: ") (call env (issue "os.Hostname" []))
    name ←
        ask_string ("Please choose a name for this system [default=" <> hostname <> "]: ") hostname
    ip ← ask_encapsulation_ip
    ca ← ask_custom_ca
    let both = not (ca.0 == "") && not (ca.1 == "")
    ret (record iv {
      mode = "bootstrap";
      name = name;
      custom_encapsulation_ip = ip;
      custom_ca_cert = if both then ca.0 else "";
      custom_ca_key = if both then ca.1 else "";
    })

  unfoldable pub ask_join : InitValues → M InitValues
  ask_join iv = do
    token ← ask_string "Please enter your join token: " ""
    ip ← ask_encapsulation_ip
    ret (record iv { mode = "join"; token = token; custom_encapsulation_ip = ip })

  -- `populateInteractively`
  unfoldable pub populate_interactively : M InitValues
  populate_interactively = do
    address ←
        ask_string
          ("Please choose the address MicroOVN will be listening on [default="
            <> tools.interface_address <> "]: ")
          tools.interface_address
    wants ← ask_bool "Would you like to create a new MicroOVN cluster? (yes/no) [default=no]: "
    services ← ask_services
    let iv = record no_values { address = tools.canonical address; services = services }
    if wants then ask_bootstrap iv else ask_join iv

  -- `readPreseedConfig`
  unfoldable pub read_preseed_config : M (Option InitValues)
  read_preseed_config = do
    mode ← on_error (wrapf "failed to stat stdin: ") (call env (issue "Stdin.Stat" []))
    if tools.is_terminal mode then ret none else do
      text ←
          on_error (wrapf "failed to parse preseed YAML from stdin: ")
            (call env (issue "yaml.Decode" []))
      ret (some (tools.decode text))

  unfoldable pub print_token : String → M (Unit {0})
  print_token name = do
    token ← call env (issue "NewJoinToken" (name ∷ "3h0m0s" ∷ []))
    say env (token <> "\n")

  unfoldable pub print_tokens : List String → M (Unit {0})
  print_tokens [] = ret tt
  print_tokens (name ∷ names) = do print_token name; print_tokens names

  -- `applyInitValues`
  unfoldable pub apply_init_values : Bool → InitValues → M (Unit {0})
  apply_init_values is_uninitialized iv = do
    if is_uninitialized
        then (do call env (cluster_request iv); ret tt)
        else say env "MicroOVN has already been initialized.\n\n"
    print_tokens iv.additional_servers

  -- The loop that asks for more servers, for `fuel` rounds: whether it has ended.
  unfoldable pub ask_servers : ℕ → M Bool
  ask_servers zero = ret false
  ask_servers (suc fuel) = do
    name ← ask_string "What's the name of the new MicroOVN server? (empty to exit): " ""
    if name == "" then ret true else print_token name >> ask_servers fuel

  unfoldable pub add_servers : ℕ → M Bool
  add_servers fuel = do
    wants ←
        ask_bool "Would you like to add additional servers to the cluster? (yes/no) [default=no]: "
    if wants then ask_servers fuel else ret true

  -- `applyDefaults` with `os.Hostname`, of which an error is dropped.
  unfoldable pub with_defaults : String → InitValues → M InitValues
  with_defaults flag_address iv = do
    hostname ←
        if iv.name == ""
        then (do
          r ← attempt (call env (issue "os.Hostname" []))
          either r (λ name. ret name) (λ e. ret ""))
        else ret ""
    ret (apply_defaults hostname tools.interface_address tools.canonical flag_address iv)

  -- What `cmdInit.Run` does with the values.
  unfoldable pub start_with : ℕ → Bool → Bool → String → InitValues → M Bool
  start_with fuel is_uninitialized from_preseed flag_address given = do
    iv ← with_defaults flag_address given
    lift (validate_init tools.is_network_address tools.is_not_empty iv)
    apply_init_values is_uninitialized iv
    if not from_preseed && not (iv.mode == "join") then add_servers fuel else ret true

  -- The values of the preseed, or else those of the dialogue.
  unfoldable pub given_values : Option InitValues → M InitValues
  given_values none = populate_interactively
  given_values (some iv) = ret iv

  -- `cmdInit.Run`
  unfoldable pub init_command : ℕ → String → M Bool
  init_command fuel flag_address = do
    call env (issue "microcluster.App" [])
    r ← attempt (call env (issue "GetClusterMembers" []))
    is_uninitialized ←
        either r (λ members. ret false)
          (λ e. if eqb (tools.status e.message) 503 then ret true else raise e)
    preseed ← read_preseed_config
    given ← given_values preseed
    start_with fuel is_uninitialized (not (is_none preseed)) flag_address given
