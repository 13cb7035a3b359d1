-- ===== src/Endpoint/Catalog.antt =====
-- The descriptors of the catalog operations (src/endpoint.rs).
use smspool_sdk.Endpoint.Defs.{Endpoint, endpoint, bearer, get, multipart, post, read_only}

abbrev pub catalog_success_rate : Endpoint
catalog_success_rate =
    endpoint "catalog.success_rate" post "/request/success_rate" multipart bearer read_only

abbrev pub catalog_balance : Endpoint
catalog_balance = endpoint "catalog.balance" post "/request/balance" multipart bearer read_only

abbrev pub catalog_suggested_countries : Endpoint
catalog_suggested_countries =
    endpoint "catalog.suggested_countries" post "/request/suggested_countries" multipart bearer
      read_only

abbrev pub catalog_suggested_pools : Endpoint
catalog_suggested_pools =
    endpoint "catalog.suggested_pools" post "/pool/retrieve_valid" multipart bearer read_only

abbrev pub catalog_countries : Endpoint
catalog_countries =
    endpoint "catalog.countries" get "/country/retrieve_all" multipart bearer read_only

abbrev pub catalog_services : Endpoint
catalog_services =
    endpoint "catalog.services" get "/service/retrieve_all" multipart bearer read_only

abbrev pub catalog_pools : Endpoint
catalog_pools = endpoint "catalog.pools" post "/pool/retrieve_all" multipart bearer read_only
