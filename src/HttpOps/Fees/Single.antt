-- ===== src/HttpOps/Fees/Single.antt =====
-- The payment of one delivery covers its quote.
use rust_messagebox_client.Prelude.{String, true, false, List, ◌++◌}
use rust_messagebox_client.Prelude.Int.{pos_part, is_positive}
use rust_messagebox_client.Types.Permissions.{MessageBoxQuote}
use rust_messagebox_client.Deps.{Deps}
use rust_messagebox_client.Session.{Client}
use rust_messagebox_client.HttpOps.Fees.Paid.{Due}
use rust_messagebox_client.HttpOps.Fees.Covers.{due_if}

module _ (D : Deps) (client : Client) (recipient : String) (quote : MessageBoxQuote) where
  abbrev delivery_due : Due D client
  delivery_due = record {
    own = true;
    payee = quote.delivery_agent_identity_key;
    amount = pos_part quote.delivery_fee;
  }

  abbrev recipient_due : Due D client
  recipient_due = record { own = false; payee = recipient; amount = pos_part quote.recipient_fee }

  -- The positive fees of a quote: the agent's, then the recipient's.
  abbrev pub dues : List (Due D client)
  dues =
      due_if D client (is_positive quote.delivery_fee) delivery_due
      ++ due_if D client (is_positive quote.recipient_fee) recipient_due
