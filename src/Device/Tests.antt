-- ===== src/Device/Tests.antt =====
-- A small switch, and the theorems about a device at it.
use fastiron_tofu.Prelude.{
  ℕ, ◌+◌, ◌≡◌, ◌↔◌, ◌⊎◌, inl, refl, true, false, List, [], ◌∷◌, Option, none, some, Bytes, codes,
  bytes_eq, if◌then◌else◌,
}
use fastiron_tofu.Config.Command.{ParsedCommand, no_parse}
use fastiron_tofu.Device.Failure.{Failure, plain, http, is}
use fastiron_tofu.Device.Connection.{
  Capabilities, Environment, DeviceConfig, DeviceState, Method, patch, put, delete, check_config,
}
use fastiron_tofu.Device.Save.{write_config, saver}
use fastiron_tofu.Device.Save.Verified.{write_config-Saved, Saved}
use fastiron_tofu.Device.Update.{
  Script, finish, mutate, rest, run_script, update, open_scope, updater,
}
use fastiron_tofu.Device.Update.Sticky.{run_script_after_failure}
use fastiron_tofu.Device.Update.Outcome.{update_iff, Succeeds, update_failed}
use fastiron_tofu.Device.Update.Returned.{Leaves, update-Leaves}
use fastiron_tofu.Device.Select.{Context, Moment, returned, result}
use fastiron_tofu.Device.Gate.{
  host_key, System, Reaches, here, next, enter, enter_discovery, start_locked, idle, Worker,
  waiting, probing, discovering, fill,
}
use fastiron_tofu.Device.Gate.Exclusion.{Reaches-exclusive, Reaches-discovers}

-- The number of requests that the switch has taken.
abbrev World : Type 0
World = ℕ

abbrev listing : Bytes
listing = codes "ver 08.0.95\nvlan 2\nend\n"

abbrev answer : Bytes → Bytes
answer command =
    if bytes_eq command (codes "write memory") then codes "Write startup-config done." else listing

abbrev answers : List Bytes → List Bytes
answers [] = []
answers (c ∷ cs) = answer c ∷ answers cs

-- A request fails from the second on; deletions find nothing.
abbrev respond : Method → World → Option Failure
respond delete w = some (http 20 404 false)
respond _ w = if bytes_eq (w ∷ []) (0 ∷ []) then none else some (http 21 500 false)

abbrev switch : Environment World
switch = record {
  run_cli = λ commands w. ((none, answers commands), w);
  request = λ method endpoint body w. (respond method w, w + 1);
}

abbrev config : DeviceConfig
config = record {
  allow_aaa_changes = false;
  host = codes "switch";
  transport = codes "auto";
  persistence = codes "after_each_write";
  has_rest = true;
  has_cli = true;
}

abbrev parser : Bytes → ParsedCommand
parser line = no_parse

abbrev version : Bytes → Option Capabilities
version output = some (record { firmware = codes "08.0.95"; boot_image = [] })

abbrev fresh : DeviceState World
fresh = record { locked = false; discovering = false; capabilities = none; world = 0 }

-- Another call releases a gate between two looks at it; the context does not end.
abbrev then_free : (DeviceState World → DeviceState World) → List (Moment (DeviceState World))
then_free others =
    record { others = λ s. s; ended = false; prefers_gate = true }
    ∷ record { others = others; ended = false; prefers_gate = false }
    ∷ []

abbrev context : Context World
context = record {
  failure = plain 30 "context canceled";
  for_lock = then_free (λ s. record s { locked = false });
  for_discovery = then_free (λ s. record s { discovering = false });
}

-- Another call holds both gates, and the context ends.
abbrev ends : List (Moment (DeviceState World))
ends = record { others = λ s. s; ended = true; prefers_gate = true } ∷ []

abbrev canceled : Context World
canceled = record context { for_lock = ends }

abbrev busy : DeviceState World
busy = record fresh { locked = true; discovering = true }

-- Two mutations; the callback hides the failure of the second.
abbrev two_writes : Script World
two_writes = mutate patch [] [] false (λ e. mutate put [] [] false (λ f. finish none))

abbrev one_write : Script World
one_write = mutate patch [] [] false (λ e. finish e)

config_is_good : check_config config ≡ none
unfolding check_config
config_is_good = refl

saves_once : write_config parser switch config 1 ≡ (none, 1)
unfolding saver
saves_once = refl

abbrev after_write : DeviceState World
after_write = record {
  locked = false;
  discovering = false;
  capabilities = some (record { firmware = codes "08.0.95"; boot_image = [] });
  world = 1;
}

one_write_succeeds :
    update parser version switch config context one_write fresh ≡ returned none after_write
unfolding updater
one_write_succeeds = refl

-- It waits for both gates, and then goes through.
waiting_write_succeeds :
    update parser version switch config context one_write busy ≡ returned none after_write
unfolding updater
waiting_write_succeeds = refl

canceled_write_fails :
    update parser version switch config canceled one_write busy
    ≡ returned (some (plain 30 "context canceled")) busy
unfolding updater
canceled_write_fails = refl

write_config-Saved_example : Saved parser switch config 1 1
unfolding saver
write_config-Saved_example = write_config-Saved parser switch config 1 1 refl

update_iff_example :
    (result (update parser version switch config context one_write busy) ≡ some none)
    ↔ Succeeds parser version switch config context one_write busy
update_iff_example = update_iff parser version switch config context one_write busy

abbrev after_save : DeviceState World
after_save = record after_write { world = 0 }

update-Leaves_example :
    Leaves context busy none after_write
    × (((bytes_eq config.persistence (codes "never") ≡ true) × (busy ≡ after_save))
        ⊎ Leaves context busy none after_save)
unfolding updater
update-Leaves_example =
    update-Leaves parser version switch config context one_write busy after_write after_save none
      none refl refl

abbrev inside_fresh : DeviceState World
inside_fresh = record fresh { locked = true }

abbrev discovered_fresh : DeviceState World
discovered_fresh = record {
  locked = true;
  discovering = false;
  capabilities = some (record { firmware = codes "08.0.95"; boot_image = [] });
  world = 0;
}

update_failed_example :
    (f : Failure) × ((u : DeviceState World) × ((update parser version switch config context
            two_writes fresh
          ≡ returned (some f) u)
        × ((is (http 21 500 false) (http 21 500 false) ≡ true → is f (http 21 500 false) ≡ true)
            × (u.world ≡ (run_script switch config two_writes open_scope 0).2))))
unfolding updater
update_failed_example =
    update_failed parser version switch config context two_writes fresh inside_fresh
      discovered_fresh (http 21 500 false) (inl (refl, (inl refl, refl))) refl refl

-- A callback that sends a request after one that failed.
abbrev after_failure : Option Failure → Script World
after_failure e = mutate patch [] [] false (λ f. finish none)

run_script_after_failure_example :
    ((run_script switch config (mutate put [] [] false after_failure) open_scope 5).1.error
      ≡ some (http 21 500 false))
    × ((run_script switch config (mutate put [] [] false after_failure) open_scope 5).2 ≡ 6)
unfolding updater
run_script_after_failure_example =
    run_script_after_failure switch config put [] [] false after_failure open_scope
      (record { active = true; error = some (http 21 500 false) }) 5 6 (http 21 500 false) refl refl

-- A deletion that finds nothing is no failure where that is allowed.
missing_is_allowed : (rest switch config open_scope delete [] [] true 0).0 ≡ none
unfolding updater
missing_is_allowed = refl

key_of_host : host_key (codes "Switch.Example.") ≡ codes "switch.example"
unfolding host_key
key_of_host = refl

abbrev waiter : Worker
waiter = record { lock = 4; device = 2; locks = true; phase = waiting }

abbrev one_waits : System
one_waits = record idle { workers = waiter ∷ [] }

abbrev one_probes : System
one_probes = record one_waits {
  full = fill (λ g. false) 4 true;
  workers = record waiter { phase = probing } ∷ [];
}

abbrev one_discovers : System
one_discovers = record one_probes {
  discoveries = fill (λ g. false) 2 true;
  workers = record waiter { phase = discovering } ∷ [];
}

one_discovers_reached : Reaches idle one_discovers
one_discovers_reached =
    next {t = one_probes}
      (next {t = one_waits} (next here (start_locked 4 2 refl))
        (enter 0 waiter refl refl refl refl refl))
      (enter_discovery 0 (record waiter { phase = probing }) refl refl refl refl)

Reaches-exclusive_example : (◌≡◌ {A = ℕ} 0 0) × (one_discovers.full 4 ≡ true)
Reaches-exclusive_example =
    Reaches-exclusive 0 0 (record waiter { phase = discovering })
      (record waiter { phase = discovering }) one_discovers_reached refl refl refl refl

Reaches-discovers_example : (◌≡◌ {A = ℕ} 0 0) × (one_discovers.discoveries 2 ≡ true)
Reaches-discovers_example =
    Reaches-discovers 0 0 (record waiter { phase = discovering })
      (record waiter { phase = discovering }) one_discovers_reached refl refl refl refl
