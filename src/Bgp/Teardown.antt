-- ===== src/Bgp/Teardown.antt =====
-- microovn/bgp/redirect.go: `teardownAll`, which goes on after each error and returns all of them.
use microovn.Prelude.{String, List, [], ◌∷◌, ◌++◌, ◌==◌, ◌||◌, if◌then◌else◌}
use microovn.Text.{◌<>◌, split, contains, has_prefix}
use microovn.Text.Trim.{trim_of}
use microovn.Netplan.{Yaml, cleanup, run_command}
use microovn.Commands.{vs_ctl, nb_ctl_cluster}
use microovn.Paths.{bird_config_file, bird_default_config, bird_config_dir}
use microovn.Effect.{Env, Error, M, ret, attempt, either, now, errorf, ◌>>=◌}
use microovn.Effect.Errors.{also, report}
use microovn.Bgp.Names.{
  managed, bgp_bridge_mapping, get_lr_name, get_ls_name_chassis_match, get_external_id,
  parse_ovn_find,
}
use microovn.Bgp.Networks.{netplan_file}

-- The loop over the entries of ovn-bridge-mappings: `mapping` is what is kept so far.
unfoldable pub keep_entries : List String → String → List String → String
unfolding contains
keep_entries micro_ovn mapping [] = mapping
keep_entries micro_ovn mapping (entry ∷ entries) =
    let kept = keep_entries micro_ovn (mapping <> "," <> entry) entries in
    let rest = keep_entries micro_ovn mapping entries in
    if contains micro_ovn entry then rest else kept

-- The new value of ovn-bridge-mappings: its entries without those that MicroOVN keeps for itself.
unfoldable pub remaining_mapping : String → String → String
unfolding keep_entries trim_of split
remaining_mapping ovn_mapping micro_ovn_mapping =
    trim_of b',' (keep_entries (split b',' micro_ovn_mapping) "" (split b',' ovn_mapping))

-- `fmt.Errorf("…: %v", err)`
abbrev as_error : String → Error → Error
as_error m e = errorf (m <> e.message)

module _ (env : Env) where
  -- The arguments that list the records of a table that MicroOVN has created.
  abbrev pub find_args : String → List String
  find_args table = "--bare" ∷ "--columns" ∷ "name" ∷ "find" ∷ table ∷ managed ∷ []

  -- The loop over the logical switches.
  unfoldable pub delete_switches : List Error → List String → M (List Error)
  unfolding has_prefix
  delete_switches errs [] = ret errs
  delete_switches errs (switch ∷ switches) =
      if has_prefix switch (get_ls_name_chassis_match env)
      then (do
        more ←
            also errs (as_error ("failed to delete Logical Switch '" <> switch <> "': "))
              (nb_ctl_cluster env ("ls-del" ∷ switch ∷ []))
        delete_switches more switches)
      else delete_switches errs switches

  -- The loops over the bridges and over the ports: `del` is the command, `kind` the record.
  unfoldable pub delete_records : String → String → List Error → List String → M (List Error)
  delete_records del kind errs [] = ret errs
  delete_records del kind errs (name ∷ names) = do
    more ←
        also errs (as_error ("failed to delete OVS " <> kind <> " '" <> name <> "': "))
          (vs_ctl env (del ∷ name ∷ []))
    delete_records del kind more names

  unfoldable pub teardown_switches : List Error → M (List Error)
  teardown_switches errs = do
    r ← attempt (nb_ctl_cluster env (find_args "logical_switch"))
    either r (λ out. delete_switches errs (parse_ovn_find out))
        λ e. ret (errs ++ as_error "failed to lookup Logical Switches managed by MicroOVN: " e ∷ [])

  unfoldable pub teardown_bridges : List Error → M (List Error)
  teardown_bridges errs = do
    r ← attempt (vs_ctl env (find_args "bridge"))
    either r (λ out. delete_records "del-br" "Bridge" errs (parse_ovn_find out))
        λ e. ret (errs ++ as_error "failed to lookup OVS Bridges managed by MicroOVN: " e ∷ [])

  unfoldable pub teardown_ports : List Error → M (List Error)
  teardown_ports errs = do
    r ← attempt (vs_ctl env (find_args "port"))
    either r (λ out. delete_records "del-port" "Port" errs (parse_ovn_find out))
        λ e. ret (errs ++ as_error "failed to lookup OVS Ports managed by MicroOVN: " e ∷ [])

  -- The arguments that write the new value, or remove the key.
  unfoldable pub restore_args : String → List String
  restore_args mapping =
      if mapping == ""
      then "remove" ∷ "Open_vSwitch" ∷ "." ∷ "external-ids" ∷ "ovn-bridge-mappings" ∷ []
      else "set" ∷ "Open_vSwitch" ∷ "." ∷ ("external-ids:ovn-bridge-mappings=" <> mapping) ∷ []

  unfoldable pub restore_mapping : List Error → String → M (List Error)
  unfolding remaining_mapping restore_args
  restore_mapping errs ovn_mapping = do
    r ← attempt (get_external_id env bgp_bridge_mapping)
    either r
        (λ micro_ovn_mapping.
          if ovn_mapping == "" || micro_ovn_mapping == ""
          then ret errs
          else also errs
              (as_error
                "failed to remove MicroOVN managed bridge mappings from ovn-bridge-mappings: ")
              (vs_ctl env (restore_args (remaining_mapping ovn_mapping micro_ovn_mapping))))
        λ e.
          ret (errs ++ as_error "failed to lookup OVN bridge mapping managed by MicroOVN: " e ∷ [])

  -- The backup and the reset of Bird's configuration; the clock answers with `time.Now().Unix()`.
  unfoldable pub reset_bird : List Error → M (List Error)
  reset_bird errs = do
    time ← now env
    let backup_config = bird_config_file env <> "_" <> time
    r ← attempt (run_command env "cp" (bird_config_file env ∷ backup_config ∷ []))
    either r
        (λ out.
          also errs (as_error "failed to reset Bird config: ")
            (run_command env "cp" (bird_default_config env ∷ bird_config_dir env ∷ [])))
        λ e. ret (
          errs
          ++ as_error "failed to backup Bird config. Will not proceed with its removal: " e ∷ [])

  -- From the bridge mappings on, where a failing lookup ends the function.
  unfoldable pub teardown_mapping : List Error → M (List Error)
  teardown_mapping errs = do
    r ← attempt (get_external_id env "ovn-bridge-mappings")
    either r
        (λ ovn_mapping. do
          restored ← restore_mapping errs ovn_mapping
          removed ← also restored (as_error ("failed to remove " <> bgp_bridge_mapping <> ": ")) (
              vs_ctl env
                ("remove" ∷ "Open_vSwitch" ∷ "." ∷ "external-ids" ∷ bgp_bridge_mapping ∷ []))
          reset_bird removed)
        λ e. ret (errs ++ as_error "failed to lookup Open_vSwitch ovn-bridge-mappings: " e ∷ [])

module _ (env : Env) (yaml : Yaml) where
  -- `teardownAll`
  unfoldable pub teardown_all : M (Unit {0})
  teardown_all = do
    let router = get_lr_name env
    no_router ←
        also [] (as_error ("failed to delete Logical Router '" <> router <> "': "))
          (nb_ctl_cluster env ("lr-del" ∷ router ∷ []))
    no_netplan ←
        also no_router (as_error "failed to cleanup netplan: ") (cleanup env yaml netplan_file)
    no_switches ← teardown_switches env no_netplan
    no_bridges ← teardown_bridges env no_switches
    no_ports ← teardown_ports env no_bridges
    errs ← teardown_mapping env no_ports
    report errs
