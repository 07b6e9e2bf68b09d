-- ===== src/Io.antt =====
-- Programs that call the wallet, the relay and the overlay: trees whose nodes are the calls and
-- whose branches are the replies. A property of a tree speaks of every behaviour of the other side.
pub mod Laws
pub mod Runs
pub mod Avoids
use rust_messagebox_client.Prelude.{ℕ, String, Bool, Option, List}
use rust_messagebox_client.Prelude.Dict.{Dict}
use rust_messagebox_client.Error.{Result, ok, err, MessageBoxError, Fallible, map_err}
use rust_messagebox_client.Types.{AuthenticatedPeerMessage}
use rust_messagebox_client.Deps.{Deps}

-- `AuthFetchResponse`
pub record Response : Type 0 where
  pub status : ℕ
  pub headers : Dict String
  pub body : List ℕ

module _ (D : Deps) where
  open D use {PublicKey, Value, LockingScript}

  pub data Counterparty : Type 0 where
    anyone : Counterparty
    other : Option PublicKey → Counterparty

  -- The arguments by which wallet operations choose a key. `privileged` is always false and the
  -- reasons and permissions that go with it are absent, so those arguments are left out.
  pub record KeyArgs : Type 0 where
    pub security_level : ℕ
    pub protocol : String
    pub key_id : String
    pub counterparty : Counterparty

  -- `InternalizeOutput`
  pub data InternalizeOutput : Type 0 where
    wallet_payment : ℕ → List ℕ → List ℕ → PublicKey → InternalizeOutput
    basket_insertion : ℕ → String → Option String → List String → InternalizeOutput

  pub record InternalizeActionArgs : Type 0 where
    pub tx : List ℕ
    pub description : String
    pub labels : List String
    pub seek_permission : Bool
    pub outputs : List InternalizeOutput

  -- `CreateActionOutput`; the basket, the instructions and the tags that no caller sets are left out.
  pub record CreateActionOutput : Type 0 where
    pub locking_script : List ℕ
    pub satoshis : ℕ
    pub output_description : String
    pub basket : Option String
    pub custom_instructions : Option String

  -- `CreateActionInput` without an unlocking script, with the length of the one to come.
  pub record CreateActionInput : Type 0 where
    pub outpoint : String
    pub input_description : String
    pub unlocking_script_length : ℕ

  -- The options that a caller leaves at their defaults are `none`.
  pub record CreateActionArgs : Type 0 where
    pub description : String
    pub input_beef : Option (List ℕ)
    pub inputs : List CreateActionInput
    pub outputs : List CreateActionOutput
    pub labels : List String
    pub randomize_outputs : Option Bool
    pub accept_delayed_broadcast : Option Bool

  -- `CreateActionResult`: the transaction, or a reference and a transaction to sign.
  pub record CreateActionResult : Type 0 where
    pub tx : Option (List ℕ)
    pub signable_transaction : Option (List ℕ × List ℕ)

  -- An output of a lookup answer: the BEEF and the index. Another kind of answer is the empty list.
  pub record LookupOutput : Type 0 where
    pub beef : List ℕ
    pub output_index : ℕ

  -- What the tasks of a client share by name: the rooms that the socket has joined and those that the
  -- client has, and the keys of the callbacks that the socket and the client hold.
  pub data Shared : Type 0 where
    socket_rooms : Shared
    client_rooms : Shared
    socket_subscriptions : Shared
    client_subscriptions : Shared

  -- The last argument of a wallet call is the originator.
  pub data Call : Type 0 where
    get_identity_key : Option String → Call
    get_public_key : KeyArgs → Option String → Call
    -- `ProtoWallet::anyone()`
    anyone_identity_key : Call
    anyone_public_key : KeyArgs → Call
    create_action : CreateActionArgs → Option String → Call
    -- the reference, and the unlocking scripts of the inputs
    sign_action : List ℕ → List (ℕ × List ℕ) → Option String → Call
    create_signature : KeyArgs → List ℕ → Option String → Call
    -- `create_nonce(wallet)`
    create_nonce : Call
    -- `PushDrop::new(wallet, originator).lock(fields, …)` for the wallet itself, with a signature
    push_drop_lock : List (List ℕ) → KeyArgs → Option String → Call
    -- bytes of `rand::random`
    random : ℕ → Call
    -- `LookupResolver::query` of a service, and `TopicBroadcaster::broadcast_beef` on a topic
    lookup : String → Value → Call
    broadcast_beef : String → List ℕ → Call
    -- the cells `identity_key` and `init_once` of the client, which other tasks may set meanwhile
    load_identity_key : Call
    store_identity_key : String → Call
    load_initialized : Call
    store_initialized : Call
    -- `OnceCell::set` of `reconnect_supervisor` with the spawn that follows it; whether it is set
    load_supervisor : Call
    spawn_supervisor : String → String → Call
    -- the task of the poll backstop, for a room and its message box
    spawn_poll : String → String → Call
    -- the poll task of a room: its counter of deliveries over the socket, and its callback, which
    -- is what `exactly_once` of Client/Dedup.antt makes of the user's
    load_activity : String → Call
    poll_callback : String → AuthenticatedPeerMessage → Call
    -- in milliseconds; `sleep_around` is for a duration drawn at random within a quarter of this one
    sleep : ℕ → Call
    sleep_around : ℕ → Call
    -- one lock of a shared set or map
    is_member : Shared → String → Call
    insert_member : Shared → String → Call
    remove_member : Shared → String → Call
    members : Shared → Call
    clear_members : Shared → Call
    -- the queues of waiters, by key: what Websocket/Acks.antt says each does
    push_waiter : String → Call
    pop_newest_waiter : String → Call
    pop_oldest_waiter : String → Call
    drain_waiters : Call
    -- the acknowledgement of the oldest waiter, with what its channel gets
    resolve_waiter : String → Bool → Call
    -- the waiter's channel for ten seconds: whether it got `true`
    await_waiter : String → Call
    -- `ws_state` of the client: whether its socket is connected, `none` without a socket
    load_socket : Call
    store_socket : Bool → Call
    -- `AuthSocketClient`
    socket_connect : String → String → Call
    socket_join : String → Call
    socket_leave : String → Call
    socket_emit : String → Value → Call
    socket_disconnect : Call
    encrypt : KeyArgs → List ℕ → Option String → Call
    decrypt : KeyArgs → List ℕ → Option String → Call
    create_hmac : KeyArgs → List ℕ → Option String → Call
    verify_hmac : KeyArgs → List ℕ → List ℕ → Option String → Call
    internalize_action : InternalizeActionArgs → Option String → Call
    -- url, method, body, headers
    fetch : String → String → Option (List ℕ) → Dict String → Call
    -- milliseconds since the epoch
    now : Call

  abbrev pub Reply : Call → Type 0
  Reply (get_identity_key _) = Result PublicKey String
  Reply (get_public_key _ _) = Result PublicKey String
  Reply anyone_identity_key = Result PublicKey String
  Reply (anyone_public_key _) = Result PublicKey String
  Reply (create_action _ _) = Result CreateActionResult String
  Reply (sign_action _ _ _) = Result (Option (List ℕ)) String
  Reply (create_signature _ _ _) = Result (List ℕ) String
  Reply create_nonce = Result String String
  Reply (push_drop_lock _ _ _) = Result LockingScript String
  Reply (random _) = List ℕ
  Reply (lookup _ _) = Result (List LookupOutput) String
  Reply (broadcast_beef _ _) = Result (Unit {0}) String
  Reply load_identity_key = Option String
  Reply (store_identity_key _) = Unit
  Reply load_initialized = Bool
  Reply store_initialized = Unit
  Reply load_supervisor = Bool
  Reply (spawn_supervisor _ _) = Unit
  Reply (spawn_poll _ _) = Unit
  Reply (load_activity _) = ℕ
  Reply (poll_callback _ _) = Unit
  Reply (sleep _) = Unit
  Reply (sleep_around _) = Unit
  Reply (is_member _ _) = Bool
  Reply (insert_member _ _) = Unit
  Reply (remove_member _ _) = Unit
  Reply (members _) = List String
  Reply (clear_members _) = Unit
  Reply (push_waiter _) = Unit
  Reply (pop_newest_waiter _) = Unit
  Reply (pop_oldest_waiter _) = Unit
  Reply drain_waiters = Unit
  Reply (resolve_waiter _ _) = Unit
  Reply (await_waiter _) = Bool
  Reply load_socket = Option Bool
  Reply (store_socket _) = Unit
  Reply (socket_connect _ _) = Result (Unit {0}) String
  Reply (socket_join _) = Result (Unit {0}) String
  Reply (socket_leave _) = Result (Unit {0}) String
  Reply (socket_emit _ _) = Result (Unit {0}) String
  Reply socket_disconnect = Result (Unit {0}) String
  Reply (encrypt _ _ _) = Result (List ℕ) String
  Reply (decrypt _ _ _) = Result (List ℕ) String
  Reply (create_hmac _ _ _) = Result (List ℕ) String
  Reply (verify_hmac _ _ _ _) = Result Bool String
  Reply (internalize_action _ _) = Result Bool String
  Reply (fetch _ _ _ _) = Result Response String
  Reply now = ℕ

  pub data Prog {ℓ} (A : Type ℓ) : Type ℓ where
    ret : A → Prog A
    call : (c : Call) → (Reply c → Prog A) → Prog A

module _ {D : Deps} where
  unfoldable pub bind {ℓ κ} : {A : Type ℓ} {B : Type κ} → Prog D A → (A → Prog D B) → Prog D B
  bind (ret a) f = f a
  bind (call c k) f = call c (λ r. bind (k r) f)

  abbrev pub perform : (c : Call D) → Prog D (Reply D c)
  perform c = call c ret

-- An `async fn` that returns a `Result<A, MessageBoxError>`; `>>=` is `?`.
abbrev pub Io {ℓ} : Deps → Type ℓ → Type ℓ
Io D A = Prog D (Fallible A)

module _ {D : Deps} where
  abbrev or_fail {ℓ κ} : {A : Type ℓ} {B : Type κ} → (A → Io D B) → Fallible A → Io D B
  or_fail f (ok a) = f a
  or_fail f (err e) = ret (err e)

  infixl 5 ◌>>=◌ ◌>>◌
  abbrev pub ◌>>=◌ {ℓ κ} : {A : Type ℓ} {B : Type κ} → Io D A → (A → Io D B) → Io D B
  m >>= f = bind m (or_fail f)

  abbrev pub ◌>>◌ {ℓ κ} : {A : Type ℓ} {B : Type κ} → Io D A → Io D B → Io D B
  m >> n = m >>= λ _. n

  -- An awaited call that cannot fail.
  abbrev pub of_prog {ℓ} : {A : Type ℓ} → Prog D A → Io D A
  of_prog p = bind p (λ a. ret (ok a))

  -- `expr.map_err(f)?` on a value and on an awaited call.
  abbrev pub of_result {ℓ} : {A : Type ℓ} → (String → MessageBoxError) → Result A String → Io D A
  of_result f r = ret (map_err f r)

  abbrev pub of_call {ℓ} :
      {A : Type ℓ} → (String → MessageBoxError) → Prog D (Result A String) → Io D A
  of_call f p = bind p (λ r. ret (map_err f r))
