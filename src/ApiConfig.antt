-- ===== src/ApiConfig.antt =====
-- microovn/api/config/config.go: the endpoint of the configuration options.
pub mod Answers
use microovn.Prelude.{
  String, Bool, true, false, not, ◌&&◌, Option, none, some, List, [], ◌∷◌, ◌==◌, if◌then◌else◌,
}
use microovn.Text.{◌<>◌, split}
use microovn.Database.{ConfigItem}
use microovn.Config.{set_config, get_config, delete_config}
use microovn.Effect.{
  Env, Error, Result, ok, err, panic, M, ret, raise, lift, attempt, either, call, issue, ◌>>=◌,
  ◌>>◌, on_error, errorf,
}

-- The responses to the three requests; `success` is the first argument of `response.SyncResponse`.
pub record Answer : Type 0 where
  pub success : Bool
  pub error : String

pub record GetAnswer : Type 0 where
  pub success : Bool
  pub error : String
  pub is_set : Bool
  pub value : String

abbrev pub answered : Bool → String → Answer
answered b e = record { success = b; error = e }

-- The only entry of `AllowedConfigKeys`.
abbrev pub central_ips_key : String
central_ips_key = "ovn.central-ips"

-- `parse_ip` is whether `net.ParseIP` finds an address.
module _ (parse_ip : String → Bool) where
  -- The loop of `validateOvnCentralIps`.
  unfoldable pub check_ips : List String → Result (Unit {0})
  check_ips [] = ok tt
  check_ips (ip ∷ ips) =
      if parse_ip ip then check_ips ips else err (errorf ("cannot parse IP address '" <> ip <> "'"))

  -- `validateOvnCentralIps`
  unfoldable pub validate_ovn_central_ips : String → Result (Unit {0})
  validate_ovn_central_ips value =
      if value == "" then err (errorf "no IPs provided") else check_ips (split 44 value)

  -- `parseConfigRequest` of a decoded request; a value is validated only if it is to be set.
  unfoldable pub parse_config_request : String → Option String → Result (Unit {0})
  parse_config_request key value =
      if key == central_ips_key
      then (elim value [
        | none ↦ ok tt
        | some v ↦ elim (validate_ovn_central_ips v) [
          | ok u ↦ ok tt
          | err e ↦ err (errorf ("configuration for key '" <> key <> "' not valid: " <> e.message))
          | panic ↦ panic
        ]
      ])
      else err (errorf ("config key '" <> key <> "' is not a recognized config option"))

module _ (env : Env) (parse_ip : String → Bool) where
  -- `ovnCentralIpsUpdated`: the client of the leader, and its request, which fails as well if the
  -- response says so.
  unfoldable pub ovn_central_ips_updated : String → M (Unit {0})
  ovn_central_ips_updated key = do
    let prefix = "handling of '" <> key <> "' config failed."
    on_error
        (λ e. errorf (
          prefix
          <> " Failed to trigger environment update in the OVN cluster. Config value was not successfully applied. Please see logs for more details."))
        (call env (issue "Leader" []))
    on_error
        (λ e. errorf (
          prefix
          <> " Failed to trigger environment update in the OVN cluster. Cluster may be in inconsistent state! Please see logs for more details."))
        (call env (issue "RegenerateEnvironment" []))
    ret tt

  -- `setConfig`
  unfoldable pub handle_set : String → String → M Answer
  handle_set key value = do
    p ← attempt (lift (parse_config_request parse_ip key (some value)))
    either p
        (λ u. do
          r ← attempt (set_config env key value)
          either r
              (λ v. do
                h ← attempt (ovn_central_ips_updated key)
                either h (λ x. ret (answered true ""))
                    (λ e. ret (
                      answered false
                        ("Error occurred while handling config change: " <> e.message))))
              (λ e. ret (answered false ("Error occurred while setting config: " <> e.message))))
        (λ e. ret (answered false e.message))

  abbrev pub item_answer : Option ConfigItem → GetAnswer
  item_answer none = record { success = true; error = ""; is_set = false; value = "" }
  item_answer (some c) = record { success = true; error = ""; is_set = true; value = c.value }

  abbrev pub get_failed : String → GetAnswer
  get_failed e = record { success = false; error = e; is_set = false; value = "" }

  -- `getConfig`
  unfoldable pub handle_get : String → M GetAnswer
  handle_get key = do
    p ← attempt (lift (parse_config_request parse_ip key none))
    either p
        (λ u. do
          r ← attempt (get_config env key)
          either r (λ item. ret (item_answer item))
              (λ e. ret (get_failed ("Error occurred while getting config: " <> e.message))))
        (λ e. ret (get_failed e.message))

  -- `deleteConfig`
  unfoldable pub handle_delete : String → M Answer
  handle_delete key = do
    p ← attempt (lift (parse_config_request parse_ip key none))
    either p
        (λ u. do
          r ← attempt (delete_config env key)
          either r
              (λ v. do
                h ← attempt (ovn_central_ips_updated key)
                either h (λ x. ret (answered true ""))
                    (λ e. ret (
                      answered true
                        ("Error occurred while handling config change: " <> e.message))))
              (λ e. ret (answered false ("Error occurred while deleting config: " <> e.message))))
        (λ e. ret (answered false e.message))
