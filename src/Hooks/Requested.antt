-- ===== src/Hooks/Requested.antt =====
-- `requestedServices` of microovn/ovn/ovn.go, and what the hooks read from the options of `init`.
use microovn.Prelude.{
  String, Bool, true, false, Option, none, some, List, [], ◌∷◌, ◌==◌, if◌then◌else◌,
}
use microovn.Text.{◌<>◌, split}
use microovn.Effect.{Result, ok, err, Error, errorf}

pub record RequestedServices : Type 0 where
  pub central : Bool
  pub chassis : Bool
  pub switch : Bool

-- The loop of `newRequestedServices`; the error of the last name that is not valid is returned.
unfoldable pub request_each :
    RequestedServices → Option Error → List String → RequestedServices × Option Error
request_each r e [] = (r, e)
request_each r e (service ∷ services) =
    let rest : RequestedServices → Option Error → RequestedServices × Option Error =
      λ q f. request_each q f services in
    if service == "central"
    then rest (record r { central = true }) e
    else if service == "chassis"
    then rest (record r { chassis = true }) e
    else if service == "switch"
    then rest (record r { switch = true }) e
    else rest r (some (errorf ("invalid service requested: " <> service)))

abbrev pub no_services : RequestedServices
no_services = record { central = false; chassis = false; switch = false }

abbrev pub or_fail : RequestedServices × Option Error → Result RequestedServices
or_fail (r, none) = ok r
or_fail (r, some e) = err e

-- `newRequestedServices`
unfoldable pub new_requested_services : String → Result RequestedServices
unfolding request_each split
new_requested_services init_string =
    or_fail (request_each no_services none (split b',' init_string))
