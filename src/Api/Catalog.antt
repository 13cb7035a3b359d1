-- ===== src/Api/Catalog.antt =====
-- The operations of `CatalogApi` (src/api/catalog.rs): the catalog, with their requests and the fields that they send.
use smspool_sdk.Prelude.{Bool, Option, [], ◌∷◌}
use smspool_sdk.Endpoint.{
  catalog_balance, catalog_countries, catalog_pools, catalog_services, catalog_success_rate,
  catalog_suggested_countries, catalog_suggested_pools,
}
use smspool_sdk.Types.{Identifier, country_id, service_id}
use smspool_sdk.Api.Fields.{flag, optional}
use smspool_sdk.Api.Call.{ApiCall, call}

abbrev pub success_rates : Identifier service_id → ApiCall
success_rates service = call catalog_success_rate (("service", service.as_str) ∷ [])

abbrev pub balance : ApiCall
balance = call catalog_balance []

abbrev pub suggested_countries : Identifier service_id → ApiCall
suggested_countries service = call catalog_suggested_countries (("service", service.as_str) ∷ [])

abbrev pub suggested_pools : Identifier service_id → Identifier country_id → Option Bool → ApiCall
suggested_pools service country web =
    call catalog_suggested_pools
      (("service", service.as_str) ∷ ("country", country.as_str) ∷ optional "web" flag web)

abbrev pub countries : ApiCall
countries = call catalog_countries []

abbrev pub services : Option (Identifier country_id) → ApiCall
services country = call catalog_services (optional "country" (λ x. x.as_str) country)

abbrev pub pools : ApiCall
pools = call catalog_pools []
