-- ===== src/Tests/Toy.antt =====
-- A small concrete choice of the functions of other crates: two JSON documents, keys that are their
-- own text, and byte strings of one byte for each text that is decoded.
use mathlib.Core.WellFounded.{Acc}
use rust_messagebox_client.Prelude.{
  String, ◌≡◌, refl, Option, none, some, [], ◌∷◌, Bool, true, false, arith, ◌=?◌, string_dec,
  if◌then◌else◌,
}
use rust_messagebox_client.Error.{Result, ok, err}
use rust_messagebox_client.Types.{PaymentRequestMessage, ServerPayment, NotificationPayment, value}
use rust_messagebox_client.Prelude.Int.{pos}
use rust_messagebox_client.Deps.{Deps, unwrapped}
use rust_messagebox_client.Io.{
  Call, Reply, get_identity_key, get_public_key, anyone_identity_key, anyone_public_key,
  create_action, sign_action, create_signature, create_nonce, push_drop_lock, random, lookup,
  broadcast_beef, load_identity_key, store_identity_key, load_initialized, store_initialized,
  encrypt, decrypt, create_hmac, verify_hmac, internalize_action, fetch, now, load_supervisor,
  spawn_supervisor, spawn_poll, load_activity, poll_callback, sleep, sleep_around, is_member,
  insert_member, remove_member, members, clear_members, push_waiter, pop_newest_waiter,
  pop_oldest_waiter, drain_waiters, resolve_waiter, await_waiter, load_socket, store_socket,
  socket_connect, socket_join, socket_leave, socket_emit, socket_disconnect,
}

pub data Doc : Type 0 where
  word : String → Doc
  -- {"message": "hi", "payment": "fee"}
  paid : Doc
  -- {"encryptedMessage": "cipher"}
  secret : Doc

abbrev pub alice : String
alice = "02aaaaaaaaaaaaaaaaaaaaaaaaaaaaaaaaaaaaaaaaaaaaaaaaaaaaaaaaaaaaaaaa"

unfoldable pub doc_from_str : String → Result Doc String
unfolding string_dec
doc_from_str raw =
    if raw =? "paid" then ok paid else if raw =? "secret" then ok secret else err "not JSON"

unfoldable pub doc_get : Doc → String → Option Doc
unfolding string_dec
doc_get (word s) key = none
doc_get paid key =
    if key =? "message"
    then some (word "hi")
    else if key =? "payment"
    then some (word "fee")
    else none
doc_get secret key = if key =? "encryptedMessage" then some (word "cipher") else none

unfoldable pub doc_as_str : Doc → Option String
doc_as_str (word s) = some s
doc_as_str paid = none
doc_as_str secret = none

unfoldable pub doc_to_string : Doc → String
doc_to_string (word s) = s
doc_to_string paid = "paid"
doc_to_string secret = "secret"

unfoldable pub doc_is_object : Doc → Bool
doc_is_object (word s) = false
doc_is_object paid = true
doc_is_object secret = true

abbrev pub fee : ServerPayment
fee = record {
  tx = some (7 ∷ []);
  outputs = some (
      record {
        output_index = some 0;
        protocol = some "wallet payment";
        payment_remittance = some (record {
          derivation_prefix = some "cHJl";
          derivation_suffix = some "c3Vm";
          sender_identity_key = some alice;
        });
        insertion_remittance = none;
      }
      ∷ []);
  description = none;
}

abbrev pub notice : NotificationPayment
notice = record {
  tx = some (7 ∷ []);
  outputs = some (
      record {
        output_index = some 0;
        protocol = value "wallet payment";
        payment_remittance = some (record {
          derivation_prefix = some "cHJl";
          derivation_suffix = some "c3Vm";
          sender_identity_key = some alice;
        });
      }
      ∷ []);
  description = none;
}

abbrev pub ask : PaymentRequestMessage
ask = record {
  request_id = "r1";
  sender_identity_key = alice;
  request_proof = "00";
  amount = some 5000;
  description = some "lunch";
  expires_at = some 100;
  cancelled = none;
}

abbrev layer : String → Option String
layer = unwrapped doc_from_str doc_get doc_as_str doc_to_string

pub layer-hi : (raw inner : String) → layer raw ≡ some inner → inner ≡ "hi"
unfolding unwrapped doc_from_str doc_get doc_as_str doc_to_string string_dec
layer-hi raw inner h = ground arith

pub hi-layer : layer "hi" ≡ none
unfolding unwrapped doc_from_str
hi-layer = refl

unfoldable pub toy_layers_end :
    (raw : String) → Acc (λ (inner outer : String). layer outer ≡ some inner) raw
toy_layers_end raw = Acc.intro raw (λ inner h. Acc.intro inner (λ deeper k.
    let e = layer-hi raw inner h in
    let none_here = hi-layer in let k' : layer "hi" ≡ some deeper = rw⁻¹ e k in cc))

abbrev pub toy : Deps
toy = record {
  PublicKey = String;
  public_key_from_string = ok;
  to_der_hex = λ key. key;
  to_hash = λ key. 5 ∷ [];
  from_hex = λ text. ok (6 ∷ []);
  LockingScript = String;
  p2pkh_lock = λ hash. ok "76a9";
  script_to_hex = λ script. script;
  script_from_hex = ok;
  script_to_binary = λ script. 9 ∷ [];
  chunks_to_binary = λ chunks. 8 ∷ [];
  decode_push_drop = λ script. ok ((1 ∷ []) ∷ (2 ∷ []) ∷ []);
  Transaction = String;
  from_beef = ok;
  transaction_id = ok;
  output_scripts = λ tx. "script" ∷ [];
  sighash_preimage = λ tx index flags satoshis script. ok [];
  sha256 = λ bytes. bytes;
  new_broadcaster = ok tt;
  Value = Doc;
  from_str = doc_from_str;
  from_slice = λ bytes. err "not JSON";
  value_to_string = doc_to_string;
  get = doc_get;
  as_str = doc_as_str;
  is_object = doc_is_object;
  is_null = λ v. false;
  string_value = word;
  object_value = λ members. secret;
  list_messages_response = λ bytes. ok (record { status = "success"; messages = [] });
  list_status_projection = λ bytes. ok (some "success", none);
  server_peer_message = λ v. err "not a message";
  server_payment = λ v. ok fee;
  notification_payment = λ v. ok notice;
  payment_token = λ body. err "not a token";
  payment_request_message = λ body. ok ask;
  send_message_response = λ bytes. err "not a reply";
  send_message_request = λ request. ok [];
  list_messages_params = λ box. ok [];
  acknowledge_message_params = λ ids. ok [];
  set_permission_params = λ params. ok [];
  get_permission_response = λ bytes. ok none;
  list_permissions_response = λ bytes. ok [];
  quote_response = λ bytes. ok (record { recipient_fee = pos 10; delivery_fee = pos 3 });
  register_device_request = λ request. ok [];
  register_device_response = λ bytes. err "not a reply";
  list_devices_response = λ bytes. ok [];
  custom_instructions_json = λ instructions. ok "{}";
  payment_token_json = λ token. ok "{}";
  payment_request_json = λ request. ok "{}";
  payment_response_json = λ response. ok "{}";
  payment_response = λ body. err "not a response";
  json_text = ok;
  as_bytes = λ text. 0 ∷ [];
  from_utf8 = λ bytes. ok "hello";
  base64_encode = λ bytes. "cipher";
  base64_decode = λ text. ok (1 ∷ []);
  hex_encode = λ bytes. "00";
  hex_decode = λ text. ok [];
  to_lowercase = λ text. text;
  layers_end = toy_layers_end;
}

-- The replies that a test does not choose: an empty cache, and a wallet and an overlay that answer.
abbrev pub usual : (c : Call toy) → Reply toy c
usual (get_identity_key _) = ok alice
usual (get_public_key _ _) = ok alice
usual anyone_identity_key = ok "02any"
usual (anyone_public_key _) = ok alice
usual (create_action _ _) = ok (record { tx = some (7 ∷ []); signable_transaction = none })
usual (sign_action _ _ _) = ok (some (7 ∷ []))
usual (create_signature _ _ _) = ok []
usual create_nonce = ok "bm9uY2U="
usual (push_drop_lock _ _ _) = ok "script"
usual (random n) = 4 ∷ []
usual (lookup _ _) = ok []
usual (broadcast_beef _ _) = ok tt
usual load_identity_key = none
usual (store_identity_key _) = tt
usual load_initialized = false
usual store_initialized = tt
usual load_supervisor = false
usual (spawn_supervisor _ _) = tt
usual (spawn_poll _ _) = tt
usual (load_activity _) = 0
usual (poll_callback _ _) = tt
usual (sleep _) = tt
usual (sleep_around _) = tt
usual (is_member _ _) = true
usual (insert_member _ _) = tt
usual (remove_member _ _) = tt
usual (members _) = []
usual (clear_members _) = tt
usual (push_waiter _) = tt
usual (pop_newest_waiter _) = tt
usual (pop_oldest_waiter _) = tt
usual drain_waiters = tt
usual (resolve_waiter _ _) = tt
usual (await_waiter _) = true
usual load_socket = some true
usual (store_socket _) = tt
usual (socket_connect _ _) = ok tt
usual (socket_join _) = ok tt
usual (socket_leave _) = ok tt
usual (socket_emit _ _) = ok tt
usual socket_disconnect = ok tt
usual (encrypt _ _ _) = ok (1 ∷ [])
usual (decrypt _ _ _) = ok (0 ∷ [])
usual (create_hmac _ _ _) = ok []
usual (verify_hmac _ _ _ _) = ok true
usual (internalize_action _ _) = ok true
usual (fetch _ _ _ _) = err "no network"
usual now = 0
