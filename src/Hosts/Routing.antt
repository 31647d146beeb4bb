-- ===== src/Hosts/Routing.antt =====
-- Who serves a request on a marketing host, and what the configuration of the hosts is read from.
use vercel_clone.Prelude.{
  ◌≡◌, ◌≢◌, ◌↔◌, refl, inl, inr, true, not, ◌&&◌, ◌||◌, arith, ◌==◌, Bool-cases,
}
use vercel_clone.Prelude.Text.{Text, codes, text_key, has_prefix}
use vercel_clone.Auth.{listed}
use vercel_clone.Hosts

-- A router's own answer.
answers_itself :
    (hosts : Hosts.HostConfig) (method : Hosts.Method) (path uri : Text)
    → Hosts.on_surface hosts method path uri Hosts.marketing_surface ≢ Hosts.next
unfolding Hosts.on_surface
answers_itself hosts method path uri h =
    elim (Bool-cases (Hosts.is_get method && (path == codes "/" || path == codes "/login"))) [
      | inl e ↦ let h' = rw e at h in ground (arith, h')
      | inr e ↦ elim (Bool-cases (Hosts.is_post method && path == codes "/v1/waitlist")) [
        | inl f ↦ let h' = rw (e, f) at h in ground (arith, h')
        | inr f ↦ elim (Bool-cases (has_prefix path (codes "/auth/"))) [
          | inl g ↦ let h' = rw (e, f, g) at h in ground (arith, h')
          | inr g ↦ let h' = rw (e, f, g) at h in ground (arith, h')
        ]
      ]
    ]

-- The app behind the router serves a request exactly if the path is that of a probe or of the
-- webhook, or the host is not for marketing.
pub with_host_routing_next :
    (hosts : Hosts.HostConfig) (method : Hosts.Method) (path uri host : Text)
    → (Hosts.with_host_routing hosts method path uri host ≡ Hosts.next)
      ↔ ((Hosts.is_open_path path || not (listed hosts.marketing (Hosts.request_host host))) ≡ true)
unfolding Hosts.with_host_routing Hosts.surface Hosts.on_surface
with_host_routing_next hosts method path uri host = elim (Bool-cases (Hosts.is_open_path path)) [
  | inl e ↦ rw e (λ _. refl, λ _. refl)
  | inr e ↦ elim (Bool-cases (listed hosts.marketing (Hosts.request_host host))) [
    | inr f ↦ rw (e, f) (λ _. refl, λ _. refl)
    | inl f ↦
        rw (e, f)
          (λ h. absurd (answers_itself hosts method path uri h), λ h. absurd (ground (arith, h)))
  ]
]
