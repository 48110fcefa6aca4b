-- ===== src/Api/Account.antt =====
-- billing.go, tenant.go, fleet.go: credits, organisations and the model fleet. Amounts and the
-- fields that are only passed on are of abstract types; the generated calls are parameters.
pub mod Switched
use korai_sdk_go.Prelude.{
  ℕ, String, Bool, true, false, Option, none, some, List, [], ◌∷◌, ◌==◌, if◌then◌else◌,
}
use korai_sdk_go.Prelude.Int.{ℤ, pos, ltb_ℤ}
use korai_sdk_go.Stream.{Text}
use korai_sdk_go.Api.Errors.{
  ErrorLibrary, SdkError, invalid_config, marshal_failed, not_implemented,
}
use korai_sdk_go.Api.Options.{Client, set_organization_id}
use korai_sdk_go.Api.Exchange.{Sent, ApiResult, answered, failed, gen_decode}

-- `SwitchOrganization`: an error and the client.
unfoldable pub switch_organization :
    {Raw Store : Type 0} → String → Client Store → Option (SdkError Raw) × Client Store
unfolding set_organization_id
switch_organization organization_id c =
    if organization_id == ""
    then (some invalid_config, c)
    else (none, set_organization_id organization_id c)

-- The generated calls of package koraiapi; a limit may be left out.
pub record BillingCalls (State : Type 0) : Type 0 where
  pub get_balance : State → Sent × State
  pub list_packages : State → Sent × State
  pub list_transactions : Option ℤ → State → Sent × State
  pub create_checkout : Text → State → Sent × State
  pub marshal_package : String → Option Text

pub record FleetCalls (State : Type 0) : Type 0 where
  pub get_fleet_manifest : State → Sent × State
  pub get_fleet_stats : State → Sent × State

-- A call whose response is decoded.
abbrev pub read_call :
    {Raw A State : Type 0}
    → ErrorLibrary Raw
    → A
    → (Text → Option A)
    → Sent × State
    → ApiResult Raw A × State
read_call L zero_value decode (sent, st) = (gen_decode L zero_value decode sent, st)

-- The limit is given only if it is positive.
unfoldable pub limit_param : ℤ → Option ℤ
limit_param limit = if ltb_ℤ (pos 0) limit then some limit else none

module _ {Raw A State : Type 0} (L : ErrorLibrary Raw) (B : BillingCalls State) (zero_value : A)
    (decode : Text → Option A) where
  unfoldable pub get_balance : State → ApiResult Raw A × State
  get_balance st = read_call L zero_value decode (B.get_balance st)

  unfoldable pub list_packages : State → ApiResult Raw A × State
  list_packages st = read_call L zero_value decode (B.list_packages st)

  unfoldable pub list_transactions : ℤ → State → ApiResult Raw A × State
  unfolding limit_param
  list_transactions limit st =
      read_call L zero_value decode (B.list_transactions (limit_param limit) st)

  unfoldable pub create_checkout : String → State → ApiResult Raw A × State
  create_checkout package_id st =
      if package_id == ""
      then (failed invalid_config, st)
      else elim (B.marshal_package package_id) [
        | none ↦ (failed marshal_failed, st)
        | some raw ↦ read_call L zero_value decode (B.create_checkout raw st)
      ]

module _ {Raw A State : Type 0} (L : ErrorLibrary Raw) (F : FleetCalls State) (zero_value : A)
    (decode : Text → Option A) where
  unfoldable pub get_fleet_manifest : State → ApiResult Raw A × State
  get_fleet_manifest st = read_call L zero_value decode (F.get_fleet_manifest st)

  unfoldable pub get_fleet_stats : State → ApiResult Raw A × State
  get_fleet_stats st = read_call L zero_value decode (F.get_fleet_stats st)
