-- ===== src/HttpOps/Fees/Batch.antt =====
-- The payment of a batch covers the fees of its tuples.
use rust_messagebox_client.Prelude.{
  String, ◌≡◌, ◌⊎◌, true, false, not, ◌&&◌, List, [], ◌∷◌, ◌++◌, ◌=?◌,
}
use rust_messagebox_client.Prelude.Int.{pos_part, is_positive}
use rust_messagebox_client.Error.{Fallible, ok, err}
use rust_messagebox_client.Types.{MessagePayment}
use rust_messagebox_client.Deps.{Deps}
use rust_messagebox_client.Io.Runs.{Event}
use rust_messagebox_client.Session.{Client}
use rust_messagebox_client.HttpOps.Fees.{FeeOutput, FeeTuple}
use rust_messagebox_client.HttpOps.Fees.Paid.{Due}
use rust_messagebox_client.HttpOps.Fees.Covers.{PaysAll, due_if, Covers}

module _ (D : Deps) (client : Client) where
  abbrev delivery_due : FeeTuple D client → Due D client
  delivery_due (recipient, delivery_fee, recipient_fee, agent_key) = record {
    own = true;
    payee = agent_key;
    amount = pos_part delivery_fee;
  }

  abbrev recipient_due : FeeTuple D client → Due D client
  recipient_due (recipient, delivery_fee, recipient_fee, agent_key) = record {
    own = false;
    payee = recipient;
    amount = pos_part recipient_fee;
  }

  abbrev pays_agent : FeeTuple D client → List (Due D client)
  pays_agent t = due_if D client (is_positive t.1 && not (t.3 =? "")) (delivery_due t)

  abbrev pays_recipient : FeeTuple D client → List (Due D client)
  pays_recipient t = due_if D client (is_positive t.2) (recipient_due t)

  -- The positive fees of the tuples, without the delivery fees of hosts whose agent is unknown.
  abbrev pub batch_dues : List (FeeTuple D client) → List (Due D client)
  batch_dues [] = []
  batch_dues (t ∷ ts) = pays_agent t ++ (pays_recipient t ++ batch_dues ts)

  module _ (key anyone_hex : String) where
    abbrev Batched : List (Due D client) → List (Event D) → Fallible (List (FeeOutput D)) → Type 0
    Batched dues log (ok os) = PaysAll D client log 0 dues os
    Batched dues log (err _) = Unit

  -- A batch without fees makes no transaction.
  abbrev pub BatchOk :
      String → List (Due D client) → List (Event D) → Fallible MessagePayment → Type 0
  BatchOk description dues log (ok payment) =
      ((dues ≡ []) × (payment ≡ record { tx = []; outputs = [] }))
      ⊎ Covers D client log description dues payment
  BatchOk description dues log (err _) = Unit
