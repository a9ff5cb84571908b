-- ===== src/Acl/Services.antt =====
-- internal/features/acl/ip_services.go: the map `servicePorts`.
pub mod First
pub mod Last
use fastiron_tofu.Prelude.{List, ◌++◌, ℕ, String}
use fastiron_tofu.Acl.Services.First.{services_a, services_b, services_c}
use fastiron_tofu.Acl.Services.Last.{services_d, services_e}

abbrev pub service_ports : List (String × ℕ)
service_ports = services_a ++ (services_b ++ (services_c ++ (services_d ++ services_e)))
