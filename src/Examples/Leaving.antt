-- ===== src/Examples/Leaving.antt =====
-- The theorems on the hooks at work.
use microovn.Prelude.{false, [], ◌∷◌, ◌≡◌, String, refl}
use microovn.Database.{id_of, name_of}
use microovn.Database.Services.{service_exists, get_service_id, delete_service}
use microovn.Database.Services.View.{enabled}
use microovn.Effect.{Env, World, ok, transaction, call, on_error, attempt, ◌>>=◌}
use microovn.Node.{find_service, members_with}
use microovn.Node.Lifecycle.Central.{centrals}
use microovn.Node.Lifecycle.{check_last_central, forget, disable_all_services}
use microovn.Node.Lifecycle.Idle.{has_run, disable_all_services-idle}
use microovn.Hooks.{refresh}
use microovn.Hooks.Refresh.{refresh-db}
use microovn.Examples.{db, env, bgp, start_world}

-- The rows of the first member are gone.
abbrev left : World
left = record {
  db = record db { services = record { id = 2; member_id = 2; service = "central" } ∷ [] };
  calls = [];
}

nothing_left : (s : String) → enabled left.db env.name s ≡ false
unfolding enabled name_of
nothing_left s = refl

disable_all_services-idle_example : has_run (disable_all_services env bgp left).1 ≡ false
disable_all_services-idle_example = disable_all_services-idle env bgp left nothing_left

refresh-db_test : (refresh env start_world).1.db ≡ db
refresh-db_test = refresh-db env start_world

abbrev env_b : Env
env_b = record env { name = "b" }

-- DisableService of central on both members at once: both look before one of them deletes.
abbrev both_look : World
both_look =
    (check_last_central env_b bgp "central" false
      (check_last_central env bgp "central" false start_world).1).1

both_pass_test :
    ((check_last_central env bgp "central" false start_world).0 ≡ ok false)
    × ((check_last_central env_b bgp "central" false
          (check_last_central env bgp "central" false start_world).1).0
        ≡ ok false)
unfolding check_last_central find_service id_of name_of members_with service_exists get_service_id
    transaction call on_error attempt ◌>>=◌
both_pass_test = (refl, refl)

-- Then the cluster has no central left, though neither was allowed to disable the last one.
no_central_test :
    centrals (forget env_b bgp "central" (forget env bgp "central" both_look).1).1.db ≡ 0
unfolding check_last_central find_service id_of name_of members_with service_exists get_service_id
    delete_service enabled centrals transaction call on_error attempt ◌>>=◌
no_central_test = refl
