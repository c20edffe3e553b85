-- ===== src/Cli/Init.antt =====
-- microovn/cmd/microovn/init.go: the values of `microovn init` and how they are checked.
pub mod Dialogue
pub mod Services
use microovn.Prelude.{
  ℕ, String, Bool, true, false, not, ◌&&◌, List, [], ◌∷◌, ◌++◌, ◌==◌, ltb, length, if◌then◌else◌,
}
use microovn.Text.{◌<>◌, split, contains}
use microovn.Effect.{Result, ok, err, panic, errorf}

-- `InitValues`
pub record InitValues : Type 0 where
  pub mode : String
  pub name : String
  pub address : String
  pub services : String
  pub token : String
  pub custom_encapsulation_ip : String
  pub custom_ca_cert : String
  pub custom_ca_key : String
  pub additional_servers : List String

-- `validateMode`
unfoldable pub validate_mode : String → Result (Unit {0})
validate_mode mode =
    if not (mode == "bootstrap") && not (mode == "join")
    then err (errorf ("mode must be 'bootstrap' or 'join', got \"" <> mode <> "\""))
    else ok tt

-- `validateToken`
unfoldable pub validate_token : String → String → Result (Unit {0})
validate_token mode token =
    if mode == "join" && token == ""
    then err (errorf "token is required for join mode")
    else if mode == "bootstrap" && not (token == "")
    then err (errorf "token must not be set for bootstrap mode")
    else ok tt

abbrev pub valid_services : List String
valid_services = "central" ∷ "chassis" ∷ "switch" ∷ "auto" ∷ []

-- The loop of `validateServices`; `several` is whether there is more than one service.
unfoldable pub check_services : Bool → List String → Result (Unit {0})
unfolding contains
check_services several [] = ok tt
check_services several (s ∷ rest) =
    let next = check_services several rest in
    if not (contains valid_services s)
    then err (errorf ("invalid service selected: " <> s))
    else if s == "auto" && several
    then err (errorf "cannot select multiple services when using auto")
    else next

-- `validateServices`
unfoldable pub validate_services : String → Result (Unit {0})
unfolding check_services split
validate_services services =
    check_services (ltb 1 (length (split b',' services))) (split b',' services)

abbrev then_check : Result (Unit {0}) → Result (Unit {0}) → Result (Unit {0})
then_check (ok u) r = r
then_check (err e) r = err e
then_check panic r = panic

-- `is_network_address` and `is_not_empty` are the checks of lxd's package validate.
module _ (is_network_address is_not_empty : String → Result (Unit {0})) where
  -- `validateCustomEncapsulationIP`
  abbrev pub validate_encapsulation_ip : String → Result (Unit {0})
  validate_encapsulation_ip ip = if ip == "" then ok tt else is_network_address ip

  -- `validateCustomCACert`, `validateCustomCAKey`
  abbrev pub validate_ca_path : String → Result (Unit {0})
  validate_ca_path path = if path == "" then ok tt else is_not_empty path

  -- `validate`
  unfoldable pub validate_init : InitValues → Result (Unit {0})
  unfolding validate_mode validate_token validate_services
  validate_init iv = then_check (validate_mode iv.mode) (
      then_check (validate_token iv.mode iv.token) (
        then_check (validate_services iv.services) (
          then_check (validate_encapsulation_ip iv.custom_encapsulation_ip)
            (then_check (validate_ca_path iv.custom_ca_cert) (validate_ca_path iv.custom_ca_key)))))

-- `applyDefaults`; the host gives its name and its address, and `canonical` is
-- `util.CanonicalNetworkAddress` with the default port.
unfoldable pub apply_defaults :
    String → String → (String → String) → String → InitValues → InitValues
apply_defaults hostname interface_address canonical flag_address iv = record iv {
  name = if iv.name == "" then hostname else iv.name;
  address = canonical (
      if iv.address == "" && not (flag_address == "")
      then flag_address
      else if iv.address == ""
      then interface_address
      else iv.address);
  services = if iv.services == "" then "auto" else iv.services;
}

-- The options that `applyInitValues` hands to the hooks of the daemon; the flag is whether the daemon
-- has the extension custom_encapsulation_ip.
unfoldable pub init_config : Bool → InitValues → List (String × String)
init_config supported iv =
    ("ovn-services", iv.services)
      ∷ (if supported && not (iv.custom_encapsulation_ip == "")
          then ("ovn-encap-ip", iv.custom_encapsulation_ip) ∷ []
          else [])
    ++ (if iv.mode == "bootstrap" && not (iv.custom_ca_cert == "") && not (iv.custom_ca_key == "")
        then ("ovn-ca-cert", iv.custom_ca_cert) ∷ ("ovn-ca-key", iv.custom_ca_key) ∷ []
        else [])
