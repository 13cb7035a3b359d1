-- ===== src/Api/Keyless.antt =====
-- No field that the typed API sends is called `key` (src/api).
use smspool_sdk.Prelude.{
  ℕ, ◌≡◌, refl, subst, Bool, false, String, Option, none, some, List, ◌++◌, Result, ok, any,
  any-append, arith, reject_if-eq-ok,
}
use smspool_sdk.Transport.Validate.{is_key}
use smspool_sdk.Api.Fields.{flag, optional}
use smspool_sdk.Api.Sms.Requests.{PurchaseFields, encode_purchase, pricing_value}
use smspool_sdk.Api.Business
use smspool_sdk.Api.Pricing

abbrev pub IsKeyless : List (String × String) → Type 0
IsKeyless fields = any is_key fields ≡ false

pub optional-Keyless :
    {A : Type 0} (name : String) (show : A → String) (o : Option A)
    → ((value : String) → is_key (name, value) ≡ false)
    → IsKeyless (optional name show o)
optional-Keyless name show none h = refl
optional-Keyless name show (some a) h = rw (h (show a)) refl

pub append-Keyless :
    (xs ys : List (String × String)) → IsKeyless xs → IsKeyless ys → IsKeyless (xs ++ ys)
append-Keyless xs ys h k = ground (arith, any-append is_key xs ys)

pub ok_inj : {A E : Type 0} (a b : A) → Path (Result A E) (ok a) (ok b) → a ≡ b
ok_inj a b h = cc

module _ {D : Type 0} (show : D → String) where
  pub purchase-Keyless :
      (base : PurchaseFields D) (quantity : ℕ) (create_token : Bool)
      → IsKeyless (encode_purchase show base quantity create_token)
  unfolding encode_purchase
  purchase-Keyless base quantity create_token =
      let f0 = optional "pool" (λ x. x.as_str) base.pool in
      let k0 : IsKeyless f0 = optional-Keyless "pool" (λ x. x.as_str) base.pool (λ v. refl) in
      let o1 = optional "max_price" show base.max_price in
      let f1 = f0 ++ o1 in
      let k1 : IsKeyless f1 =
        append-Keyless f0 o1 k0 (optional-Keyless "max_price" show base.max_price (λ v. refl)) in
      let o2 = optional "pricing_option" pricing_value base.pricing_option in
      let f2 = f1 ++ o2 in
      let k2 : IsKeyless f2 =
        append-Keyless f1 o2 k1
          (optional-Keyless "pricing_option" pricing_value base.pricing_option (λ v. refl)) in
      let o3 = optional "areacode" (λ x. x.as_str) base.area_code in
      let f3 = f2 ++ o3 in
      let k3 : IsKeyless f3 =
        append-Keyless f2 o3 k2
          (optional-Keyless "areacode" (λ x. x.as_str) base.area_code (λ v. refl)) in
      let o4 = optional "exclude" (λ x. x.as_str) base.exclude in
      let f4 = f3 ++ o4 in
      let k4 : IsKeyless f4 =
        append-Keyless f3 o4 k3
          (optional-Keyless "exclude" (λ x. x.as_str) base.exclude (λ v. refl)) in
      let o5 = optional "carrier" (λ x. x) base.carrier in
      let f5 = f4 ++ o5 in
      let k5 : IsKeyless f5 =
        append-Keyless f4 o5 k4 (optional-Keyless "carrier" (λ x. x) base.carrier (λ v. refl)) in
      let o6 = optional "phonenumber" (λ x. x.expose) base.phone_number in
      let f6 = f5 ++ o6 in
      let k6 : IsKeyless f6 =
        append-Keyless f5 o6 k5
          (optional-Keyless "phonenumber" (λ x. x.expose) base.phone_number (λ v. refl)) in
      k6

  pub filters-Keyless :
      (filters : Pricing.PricingFilters D) → IsKeyless (Pricing.encode_filters show filters)
  unfolding Pricing.encode_filters
  filters-Keyless filters =
      let f0 = optional "country" (λ x. x.as_str) filters.country in
      let k0 : IsKeyless f0 =
        optional-Keyless "country" (λ x. x.as_str) filters.country (λ v. refl) in
      let o1 = optional "service" (λ x. x.as_str) filters.service in
      let f1 = f0 ++ o1 in
      let k1 : IsKeyless f1 =
        append-Keyless f0 o1 k0
          (optional-Keyless "service" (λ x. x.as_str) filters.service (λ v. refl)) in
      let o2 = optional "pool" (λ x. x.as_str) filters.pool in
      let f2 = f1 ++ o2 in
      let k2 : IsKeyless f2 =
        append-Keyless f1 o2 k1
          (optional-Keyless "pool" (λ x. x.as_str) filters.pool (λ v. refl)) in
      let o3 = optional "max_price" show filters.max_price in
      let f3 = f2 ++ o3 in
      let k3 : IsKeyless f3 =
        append-Keyless f2 o3 k2 (optional-Keyless "max_price" show filters.max_price (λ v. refl)) in
      k3

pub update-Keyless :
    (V : Type 0) {D : Type 0} (show : D → String) (request : Business.BusinessUpdateRequest D)
    (fields : List (String × String))
    → Business.encode_update {V = V} show request ≡ ok fields
    → IsKeyless fields
unfolding Business.encode_update
update-Keyless V show request fields q =
    let rest = reject_if-eq-ok _ _ _ q in
    let f0 = optional "password" (λ x. x.expose) request.new_password in
    let k0 : IsKeyless f0 =
      optional-Keyless "password" (λ x. x.expose) request.new_password (λ v. refl) in
    let o1 = optional "balance" show request.balance in
    let f1 = f0 ++ o1 in
    let k1 : IsKeyless f1 =
      append-Keyless f0 o1 k0 (optional-Keyless "balance" show request.balance (λ v. refl)) in
    let o2 = optional "active" flag request.is_active in
    let f2 = f1 ++ o2 in
    let k2 : IsKeyless f2 =
      append-Keyless f1 o2 k1 (optional-Keyless "active" flag request.is_active (λ v. refl)) in
    subst IsKeyless (ok_inj _ fields rest.1) k2
