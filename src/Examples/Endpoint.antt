-- ===== src/Examples/Endpoint.antt =====
-- The theorems on the configuration endpoint at work.
use microovn.Prelude.{String, Bool, true, false, ◌==◌, none, some, ◌≡◌, refl}
use microovn.Text.{split}
use microovn.Config.{set_config, delete_config}
use microovn.Config.Map.{option}
use microovn.Database.Config.{
  create_config_item, update_config_item, delete_config_item, config_item_exists,
  get_config_item_id,
}
use microovn.Effect.{
  Env, Call, Reply, issue, out, fail, ok, transaction, call, on_error, attempt, ◌>>=◌,
}
use microovn.ApiConfig.{
  Answer, answered, parse_config_request, validate_ovn_central_ips, check_ips,
  ovn_central_ips_updated, handle_set, handle_delete,
}
use microovn.ApiConfig.Answers.{handle_set-rejects, handle_set-success, handle_delete-success}
use microovn.Examples.{env, start_world}

abbrev any_ip : String → Bool
any_ip s = true

-- Of the texts between the commas, the second is not an address.
abbrev one_ip : String → Bool
one_ip s = s == "10.0.0.9"

handle_set-rejects_example :
    (m : String) × ((m == "") ≡ false)
    × (handle_set env one_ip "ovn.central-ips" "10.0.0.9,x" start_world
        ≡ (ok (answered false m), start_world))
unfolding split
handle_set-rejects_example =
    handle_set-rejects env one_ip "ovn.central-ips" "10.0.0.9,x" start_world refl

set_runs :
    (handle_set env any_ip "ovn.central-ips" "10.0.0.9" start_world).0 ≡ ok (answered true "")
unfolding handle_set ovn_central_ips_updated parse_config_request validate_ovn_central_ips check_ips
    set_config create_config_item update_config_item config_item_exists get_config_item_id
    transaction call on_error attempt split ◌>>=◌
set_runs = refl

handle_set-success_test :
    (parse_config_request any_ip "ovn.central-ips" (some "10.0.0.9") ≡ ok tt)
    × (option (handle_set env any_ip "ovn.central-ips" "10.0.0.9" start_world).1 "ovn.central-ips"
        ≡ some "10.0.0.9")
handle_set-success_test =
    handle_set-success env any_ip "ovn.central-ips" "10.0.0.9" start_world "ovn.central-ips"
      set_runs refl

-- The leader cannot be reached.
abbrev unheard : Call → Reply
unheard (issue name args) = fail "no leader"
unheard c = out ""

abbrev lonely : Env
lonely = record env { respond = λ calls c. unheard c }

abbrev delete_answer : Answer
delete_answer =
    answered true
      "Error occurred while handling config change: handling of 'ovn.central-ips' config failed. Failed to trigger environment update in the OVN cluster. Config value was not successfully applied. Please see logs for more details."

delete_runs : (handle_delete lonely any_ip "ovn.central-ips" start_world).0 ≡ ok delete_answer
unfolding handle_delete ovn_central_ips_updated parse_config_request delete_config
    delete_config_item config_item_exists get_config_item_id transaction call on_error attempt ◌>>=◌
delete_runs = refl

handle_delete-success_test :
    option (handle_delete lonely any_ip "ovn.central-ips" start_world).1 "ovn.central-ips" ≡ none
handle_delete-success_test =
    handle_delete-success lonely any_ip "ovn.central-ips" start_world "ovn.central-ips" delete_runs
      refl
