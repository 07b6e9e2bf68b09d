-- ===== src/HostResolution.antt =====
-- src/host_resolution.rs: advertisements of hosts on the overlay. The scripts, the transactions and
-- the overlay's protocols are other crates' code.
pub mod Resolved
pub mod Announced
pub mod Revoked
use rust_messagebox_client.Prelude.{
  ℕ, zero, suc, ◌%◌, String, ◌<>◌, false, Option, none, some, List, [], ◌∷◌, ◌++◌, length, ltb,
  ◌=?◌, if◌then◌else◌,
}
use rust_messagebox_client.Prelude.Decimal.{decimal}
use rust_messagebox_client.Prelude.Maybe
use rust_messagebox_client.Prelude.Text.{trim}
use rust_messagebox_client.Error.{
  ok, err, Fallible, MessageBoxError, overlay, wallet, ok_or, to_option,
}
use rust_messagebox_client.Types.{AdvertisementToken}
use rust_messagebox_client.Deps.{Deps}
use rust_messagebox_client.Io.{
  KeyArgs, anyone, create_action, sign_action, create_signature, push_drop_lock, lookup,
  broadcast_beef, LookupOutput, CreateActionArgs, Io, ret, bind, perform, of_result, of_call, ◌>>=◌,
  ◌>>◌,
}
use rust_messagebox_client.Session.{Client, get_identity_key}

-- `make_data_push`: the opcode of a push of the bytes, with the bytes.
unfoldable pub make_data_push : List ℕ → ℕ × List ℕ
make_data_push bytes =
    let len = length bytes in
    if ltb len 0x4c
    then (len, bytes)
    else if ltb len 256
    then (0x4c, bytes)
    else if ltb len 65536
    then (0x4d, bytes)
    else (0x4e, bytes)

abbrev pub get_elem? {ℓ} : {A : Type ℓ} → List A → ℕ → Option A
get_elem? [] i = none
get_elem? (x ∷ xs) zero = some x
get_elem? (x ∷ xs) (suc i) = get_elem? xs i

module _ (D : Deps) where
  open D use {
    Value, Transaction, LockingScript, from_beef, output_scripts, decode_push_drop, from_utf8,
    transaction_id, script_to_hex, script_from_hex, script_to_binary, chunks_to_binary, hex_encode,
    hex_decode, as_bytes, sha256, sighash_preimage, new_broadcaster, string_value, object_value,
  }

  -- The protocol of advertisements.
  abbrev pub advertisement_key : KeyArgs D
  advertisement_key = record {
    security_level = 1;
    protocol = "messagebox advertisement";
    key_id = "1";
    counterparty = anyone;
  }

  -- One round of the loop over the outputs of an answer; a `continue` is `none`.
  unfoldable pub advertisement : LookupOutput D → Option AdvertisementToken
  advertisement output = Maybe.◌>>=◌ (to_option (from_beef (hex_encode output.beef))) λ tx.
      Maybe.◌>>=◌ (get_elem? (output_scripts tx) output.output_index) λ script.
        Maybe.◌>>=◌ (to_option (decode_push_drop script)) λ fields.
          Maybe.◌>>=◌ (get_elem? fields 1) λ host_field.
            Maybe.◌>>=◌ (to_option (from_utf8 host_field)) λ host_url.
              Maybe.◌>>=◌ (to_option (transaction_id tx)) λ txid. some (record {
                host = host_url;
                txid = txid;
                output_index = output.output_index;
                locking_script = script_to_hex script;
                beef = output.beef;
              })

  unfoldable pub advertisements : List (LookupOutput D) → List AdvertisementToken
  advertisements [] = []
  advertisements (output ∷ outputs) =
      let rest = advertisements outputs in
      elim (advertisement output) [ none ↦ rest | some token ↦ token ∷ rest ]

  -- The member "host" of a query, when there is a host other than white space.
  abbrev host_member : Option String → List (String × Value)
  host_member none = []
  host_member (some h) = if trim h =? "" then [] else ("host", string_value (trim h)) ∷ []

  abbrev pub query_object : String → Option String → Value
  query_object ik host = object_value (("identityKey", string_value ik) ∷ host_member host)

  -- `TopicBroadcaster::new` and `broadcast_beef`.
  abbrev pub broadcast : List ℕ → Io D (Unit {0})
  broadcast beef_bytes = do
    of_result (λ e. overlay ("build broadcaster: " <> e)) new_broadcaster
    of_call (λ e. overlay ("broadcast failed: " <> e))
        (perform (broadcast_beef "tm_messagebox" beef_bytes))

  module _ (client : Client) where
    abbrev identity_key_of : Option String → Io D String
    identity_key_of (some k) = ret (ok k)
    identity_key_of none = get_identity_key D client

    unfoldable pub query_advertisements_inner :
        Option String → Option String → Io D (List AdvertisementToken)
    query_advertisements_inner identity_key host = do
      ik ← identity_key_of identity_key
      outputs ← of_call overlay (perform (lookup "ls_messagebox" (query_object ik host)))
      ret (ok (advertisements outputs))

    abbrev or_empty {ℓ} : {A : Type ℓ} → Fallible (List A) → List A
    or_empty (ok tokens) = tokens
    or_empty (err _) = []

    unfoldable pub query_advertisements :
        Option String → Option String → Io D (List AdvertisementToken)
    query_advertisements identity_key host =
        bind (query_advertisements_inner identity_key host) (λ r. ret (ok (or_empty r)))

    abbrev pub first_host : List AdvertisementToken → String
    first_host [] = client.host
    first_host (ad ∷ ads) = ad.host

    unfoldable pub resolve_host_for_recipient : String → Io D String
    resolve_host_for_recipient recipient = do
      ads ← query_advertisements (some recipient) none
      ret (ok (first_host ads))

    abbrev pub anoint_args : LockingScript → CreateActionArgs D
    anoint_args locking_script = record {
      description = "Anoint host for overlay routing";
      input_beef = none;
      inputs = [];
      outputs =
          record {
            locking_script = script_to_binary locking_script;
            satoshis = 1;
            output_description = "Overlay advertisement output";
            basket = some "overlay advertisements";
            custom_instructions = none;
          }
          ∷ [];
      labels = [];
      randomize_outputs = some false;
      accept_delayed_broadcast = some false;
    }

    -- The transaction of some BEEF bytes, of which only the id is used.
    abbrev txid_of : (String → MessageBoxError) → (String → MessageBoxError) → List ℕ → Io D String
    txid_of parse_error id_error beef_bytes = do
      tx ← of_result parse_error (from_beef (hex_encode beef_bytes))
      of_result id_error (transaction_id tx)

    unfoldable pub anoint_host : String → Io D String
    anoint_host host = do
      identity_key ← get_identity_key D client
      id_key_bytes ←
          of_result (λ e. overlay ("hex decode identity key: " <> e)) (hex_decode identity_key)
      locking_script ←
          of_call (λ e. overlay ("PushDrop lock: " <> e))
            (perform (
              push_drop_lock (id_key_bytes ∷ as_bytes host ∷ []) advertisement_key
                client.originator))
      created ←
          of_call wallet (perform (create_action (anoint_args locking_script) client.originator))
      beef_bytes ← ret (ok_or (overlay "create_action returned no tx") created.tx)
      txid ←
          txid_of (λ e. overlay ("parse BEEF: " <> e)) (λ e. overlay ("tx.id(): " <> e)) beef_bytes
      broadcast beef_bytes
      ret (ok txid)

    -- The unlocking script of an advertisement's output.
    unfoldable pub build_advertisement_unlock_script :
        Transaction → ℕ → ℕ → ℕ → LockingScript → Io D (List ℕ)
    build_advertisement_unlock_script partial_tx input_index sighash_type source_satoshis
          lock_script =
        do
          preimage ←
              of_result (λ e. overlay ("sighash_preimage: " <> e))
                (sighash_preimage partial_tx input_index sighash_type source_satoshis lock_script)
          signature ←
              of_call wallet
                (perform (create_signature advertisement_key (sha256 preimage) client.originator))
          ret (ok (chunks_to_binary (make_data_push (signature ++ (sighash_type % 256) ∷ []) ∷ [])))

    abbrev pub revoke_args : AdvertisementToken → CreateActionArgs D
    revoke_args token = record {
      description = "Revoke MessageBox host advertisement";
      input_beef = some token.beef;
      inputs =
          record {
            outpoint = token.txid <> "." <> decimal token.output_index;
            input_description = "Revoking host advertisement token";
            unlocking_script_length = 73;
          }
          ∷ [];
      outputs = [];
      labels = [];
      randomize_outputs = none;
      accept_delayed_broadcast = some false;
    }

    unfoldable pub revoke_host_advertisement : AdvertisementToken → Io D String
    revoke_host_advertisement token = do
      created ← of_call wallet (perform (create_action (revoke_args token) client.originator))
      signable ← ret (
          ok_or (overlay "create_action returned no signable_transaction")
            created.signable_transaction)
      partial_tx ←
          of_result (λ e. overlay ("parse signable tx: " <> e)) (from_beef (hex_encode signable.1))
      lock_script ←
          of_result (λ e. overlay ("parse locking script hex: " <> e))
            (script_from_hex token.locking_script)
      unlock_script ← build_advertisement_unlock_script partial_tx 0 0x41 1 lock_script
      signed ←
          of_call wallet
            (perform (sign_action signable.0 ((0, unlock_script) ∷ []) client.originator))
      signed_bytes ← ret (ok_or (overlay "sign_action returned no tx") signed)
      txid ←
          txid_of (λ e. overlay ("parse signed tx: " <> e)) (λ e. overlay ("signed_tx.id(): " <> e))
            signed_bytes
      broadcast signed_bytes
      ret (ok txid)
