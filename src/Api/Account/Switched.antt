-- ===== src/Api/Account/Switched.antt =====
-- tenant.go, client.go: the requests after an organisation has been chosen.
use korai_sdk_go.Prelude.{String, ◌≡◌, false, none, some, ◌==◌, Bool-cases, inl, inr, arith}
use korai_sdk_go.Prelude.Dict.{lookup, lookup-insert_self}
use korai_sdk_go.Api.Options.{Client, set_organization_id}
use korai_sdk_go.Api.Exchange.{default_headers}
use korai_sdk_go.Api.Account.{switch_organization}

lookup-default_headers :
    {Store : Type 0} (c : Client Store)
    → (c.organization_id == "") ≡ false
    → lookup "X-Korai-Organization" (default_headers c) ≡ some c.organization_id
unfolding default_headers
lookup-default_headers c e = rw (e) (lookup-insert_self "X-Korai-Organization" c.organization_id _)

-- After a switch that reports no error, every request carries the organisation that was asked for.
pub default_headers-switch_organization :
    {Raw Store : Type 0} (id : String) (c : Client Store)
    → (switch_organization {Raw = Raw} id c).0 ≡ none
    → lookup "X-Korai-Organization" (default_headers (switch_organization {Raw = Raw} id c).1)
      ≡ some id
unfolding switch_organization set_organization_id
default_headers-switch_organization id c h = elim (Bool-cases (id == "")) [
  | inl e ↦ absurd (ground (arith, rw (e, switch_organization) at h))
  | inr e ↦
      rw (e, switch_organization)
        (lookup-default_headers (set_organization_id id c) (unfold set_organization_id in e))
]
