-- ===== src/Api/Pricing.antt =====
-- The operations of `PricingApi` (src/api/pricing.rs): the prices, with their requests and the fields that they send.
use smspool_sdk.Prelude.{String, Option, List, [], ◌∷◌, ◌++◌, Result, ok, is_nil, reject_if, ◌>>◌}
use smspool_sdk.Endpoint.{pricing_all, pricing_quote}
use smspool_sdk.Error.{Error}
use smspool_sdk.Types.{Identifier, country_id, service_id, pool_id}
use smspool_sdk.Api.Fields.{optional}
use smspool_sdk.Api.Call.{ApiCall, call, invalid}

pub record PricingFilters (D : Type 0) : Type 0 where
  pub country : Option (Identifier country_id)
  pub service : Option (Identifier service_id)
  pub pool : Option (Identifier pool_id)
  pub max_price : Option D

-- `PricingFilters::fields`; `show` is `Money::to_string`.
unfoldable pub encode_filters :
    {D : Type 0} → (D → String) → PricingFilters D → List (String × String)
encode_filters show filters =
    optional "country" (λ x. x.as_str) filters.country
    ++ optional "service" (λ x. x.as_str) filters.service
    ++ optional "pool" (λ x. x.as_str) filters.pool
    ++ optional "max_price" show filters.max_price

-- `all`.
unfoldable pub all_prices :
    {D V : Type 0} → (D → String) → PricingFilters D → Result ApiCall (Error V)
all_prices show filters =
    reject_if (is_nil (encode_filters show filters)) (
      invalid "pricing_filters"
        "at least one filter is required; note that a broad filter can still exceed the response limit")
    >> ok (call pricing_all (encode_filters show filters))

abbrev pub quote : Identifier country_id → Identifier service_id → Identifier pool_id → ApiCall
quote country service pool =
    call pricing_quote
      (("country", country.as_str) ∷ ("service", service.as_str) ∷ ("pool", pool.as_str) ∷ [])
