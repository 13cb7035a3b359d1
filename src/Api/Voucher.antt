-- ===== src/Api/Voucher.antt =====
-- The operations of `VoucherApi` (src/api/voucher.rs): the vouchers, with their requests and the fields that they send.
-- `D` stands for `Money`, shown by `show`.
use smspool_sdk.Prelude.{ℕ, String, [], ◌∷◌, Result, ok, ◌==◌, reject_if, ◌>>◌}
use smspool_sdk.Endpoint.{voucher_bulk_generate, voucher_delete, voucher_generate, voucher_retrieve}
use smspool_sdk.Error.{Error}
use smspool_sdk.Types.{Secret, activation_token}
use smspool_sdk.Api.Fields.{decimal}
use smspool_sdk.Api.Call.{ApiCall, call, invalid}

pub record GenerateVoucherRequest (D : Type 0) : Type 0 where
  pub amount : D

pub record BulkGenerateVouchersRequest (D : Type 0) : Type 0 where
  pub amount : D
  pub quantity : ℕ

-- `BulkGenerateVouchersRequest::new`.
unfoldable pub bulk_generate_vouchers_request :
    {D V : Type 0} → D → (quantity : ℕ) → Result (BulkGenerateVouchersRequest D) (Error V)
bulk_generate_vouchers_request amount quantity =
    reject_if (quantity == 0) (invalid "quantity" "must be greater than zero")
    >> ok (record { amount = amount; quantity = quantity })

abbrev pub generate : {D : Type 0} → (D → String) → GenerateVoucherRequest D → ApiCall
generate show request = call voucher_generate (("amount", show request.amount) ∷ [])

abbrev pub retrieve : ApiCall
retrieve = call voucher_retrieve []

abbrev pub delete : Secret activation_token → ApiCall
delete voucher = call voucher_delete (("voucher", voucher.expose) ∷ [])

abbrev pub bulk_generate : {D : Type 0} → (D → String) → BulkGenerateVouchersRequest D → ApiCall
bulk_generate show request =
    call voucher_bulk_generate
      (("amount", show request.amount) ∷ ("quantity", decimal request.quantity) ∷ [])
