-- ===== src/Hosts/Examples.antt =====
-- The routing at one host of each kind, and tests of the configuration.
use vercel_clone.Prelude.{◌≡◌, refl, none, [], ◌∷◌}
use vercel_clone.Prelude.Text.{codes}
use vercel_clone.Hosts.{
  HostConfig, parse_host_set, host_from_url, load_host_config, with_host_routing, post_method,
  join_waitlist, request_host, surface, load_max_projects,
}

abbrev hosts : HostConfig
hosts = record {
  marketing = codes "spinup.in" ∷ codes "www.spinup.in" ∷ [];
  app = codes "app.spinup.in" ∷ [];
  app_base = codes "https://app.spinup.in";
}

waitlist_post :
    with_host_routing hosts post_method
      (codes "/v1/waitlist")
      (codes "/v1/waitlist")
      (codes "spinup.in")
    ≡ join_waitlist
unfolding with_host_routing surface request_host
waitlist_post = refl

from_environment : load_host_config (λ _. none) [] [] [] ≡ hosts
unfolding load_host_config parse_host_set host_from_url
from_environment = refl

no_cap : load_max_projects (codes " 0 ") ≡ 0
unfolding load_max_projects
no_cap = refl

default_cap : load_max_projects (codes "-2") ≡ 3
unfolding load_max_projects
default_cap = refl
