-- ===== src/Types/SendList.antt =====
-- The types of sends to several recipients of src/types.rs.
use rust_messagebox_client.Prelude.{String, Bool, Option, List}
use rust_messagebox_client.Prelude.Int.{ℤ}
use rust_messagebox_client.Prelude.Dict.{Dict}

pub record SendListParams : Type 0 where
  pub recipients : List String
  pub message_box : String
  pub body : String
  pub skip_encryption : Option Bool

pub record SentRecipient : Type 0 where
  pub recipient : String
  pub message_id : String

pub record FailedRecipient : Type 0 where
  pub recipient : String
  pub error : String

pub record SendListTotals : Type 0 where
  pub delivery_fees : ℤ
  pub recipient_fees : ℤ
  pub total_for_payable_recipients : ℤ

pub record SendListResult : Type 0 where
  pub status : String
  pub description : String
  pub sent : List SentRecipient
  pub blocked : List String
  pub failed : List FailedRecipient
  pub totals : Option SendListTotals

pub record RecipientQuote : Type 0 where
  pub recipient : String
  pub message_box : String
  pub delivery_fee : ℤ
  pub recipient_fee : ℤ
  pub status : String

pub record MessageBoxMultiQuote : Type 0 where
  pub quotes_by_recipient : List RecipientQuote
  pub totals : Option SendListTotals
  pub blocked_recipients : List String
  pub delivery_agent_identity_key_by_host : Dict String
