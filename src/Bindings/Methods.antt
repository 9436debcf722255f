-- ===== src/Bindings/Methods.antt =====
-- The methods of pymacdetect/src/PyMACDetect.cpp. What Python's library reads from the arguments of a
-- call is an argument: nothing, or a pointer to a client, which may be null, and what else there is.
-- The client behind a call stands beside its result.
use macdetect.Base.{ℕ, suc, Bool, true, false, List, Option, none, some, Text, ◌≡◌, arith}
use macdetect.Value.{Value}
use macdetect.Discovery.Client.{ServerInfo, DiscoveryClient, detected_servers}
use macdetect.Client.{
  Client, new_client, connected, connect, disconnect, Reception, receive, request_enable_stream,
  request_disable_stream,
}
use macdetect.Client.Laws.{receive_once}
use macdetect.Bindings.{PyDict, c_str, value_to_py_object, py_object_to_value}

pub data PyError : Type 0 where
  arguments_invalid disconnected value_invalid client_invalid : PyError

-- What a method gives to Python: an object, or a null pointer with an exception.
pub data PyResult : Type 0 where
  py_bool : Bool → PyResult
  py_none : PyResult
  py_client : Client → PyResult
  py_dict : PyDict → PyResult
  py_list : List ServerInfo → PyResult
  raised : PyError → PyResult

-- `createMDClient`
unfoldable pub create_md_client : Bool → PyResult
create_md_client true = py_client new_client
create_md_client false = raised arguments_invalid

-- `clientFromPyArgs`; `none` is a null pointer.
unfoldable pub client_from_py_args : Option (Option Client) → Option Client
client_from_py_args none = none
client_from_py_args (some c) = c

-- The frame of the methods with a client only.
unfoldable pub with_client :
    (Client → Client × PyResult) → Option (Option Client) → Option Client × PyResult
unfolding client_from_py_args
with_client act args = elim (client_from_py_args args) [
  | none ↦ (none, raised client_invalid)
  | some c ↦ (some (act c).0, (act c).1)
]

-- The frame of the methods with a client and a text or a message.
unfoldable pub with_client_and :
    {A : Type 0}
    → (Client → A → Client × PyResult)
    → Option (Option Client × A)
    → Option Client × PyResult
with_client_and act none = (none, raised arguments_invalid)
with_client_and act (some (none, a)) = (none, raised client_invalid)
with_client_and act (some (some c, a)) = (some (act c a).0, (act c a).1)

-- `destroyMDClient`: there is no client behind it.
unfoldable pub destroy_md_client : Option (Option Client) → Option Client × PyResult
unfolding with_client
destroy_md_client args = (none, (with_client (λ c. (c, py_none)) args).1)

-- `enableStream` and `disableStream`; `sends` is the result of `MDClient::send`.
unfoldable pub enable_stream :
    (Value → Bool) → Option (Option Client × Text) → Option Client × PyResult
unfolding with_client_and
enable_stream sends =
    with_client_and (λ c device. (c, py_bool (sends (request_enable_stream (c_str device)))))

unfoldable pub disable_stream :
    (Value → Bool) → Option (Option Client × Text) → Option Client × PyResult
unfolding with_client_and
disable_stream sends =
    with_client_and (λ c device. (c, py_bool (sends (request_disable_stream (c_str device)))))

-- `connectMDClient`, with the answers of the system for the address.
unfoldable pub connect_md_client :
    Option ℕ → (Text → Bool) → Option (Option Client × Text) → Option Client × PyResult
unfolding with_client_and
connect_md_client new_socket works =
    with_client_and (λ c ip. let r = connect new_socket (works (c_str ip)) c in (r.0, py_bool r.1))

-- `mdClientConnected` and `disconnectMDClient`
unfoldable pub md_client_connected : Option (Option Client) → Option Client × PyResult
unfolding with_client
md_client_connected = with_client (λ c. (c, py_bool (connected c)))

unfoldable pub disconnect_md_client : Option (Option Client) → Option Client × PyResult
unfolding with_client
disconnect_md_client = with_client (λ c. ((disconnect c).0, py_bool (disconnect c).1))

-- `send`; `none` is a null pointer that `pyObjectToValue` follows. The value that it gives is never
-- null, so the exception for an invalid value is never raised.
unfoldable pub send :
    (List Text → List Text)
    → (Value → Bool)
    → Option (Option Client × PyDict)
    → Option (Option Client × PyResult)
send order sends none = some (none, raised arguments_invalid)
send order sends (some (none, message)) = some (none, raised client_invalid)
send order sends (some (some c, message)) = elim (py_object_to_value order message) [
  | none ↦ none
  | some v ↦ some (some c, py_bool (sends v))
]

-- What `receive` makes of the result of `MDClient::receive`.
unfoldable pub received_object : Option Value → Bool → PyResult
received_object v true = raised disconnected
received_object none false = py_none
received_object (some v) false = py_dict (value_to_py_object v)

-- `receive`, which does not block; `none`: the fuel is used up.
unfoldable pub receive_method : ℕ → (ℕ → Reception) → Option (Option Client) → Option PyResult
unfolding client_from_py_args
receive_method f calls args = elim (client_from_py_args args) [
  | none ↦ some (raised client_invalid)
  | some c ↦ (elim (receive f calls false) [
    | none ↦ none
    | some r ↦ some (received_object r.0 r.1)
  ])
]

-- `detectedServers`, with the servers that the client has detected: those that are left, and the
-- result.
unfoldable pub detected_servers_method :
    DiscoveryClient → Option (Option Client) → DiscoveryClient × PyResult
unfolding client_from_py_args
detected_servers_method servers args = elim (client_from_py_args args) [
  | none ↦ (servers, raised client_invalid)
  | some c ↦ ((detected_servers servers).0, py_list (detected_servers servers).1)
]

-- `receive` of a client asks it once, and with any fuel it gives the object for what this call gave.
receive_method_lem :
    (f : ℕ) (calls : ℕ → Reception) (c : Client)
    → receive_method (suc f) calls (some (some c))
      ≡ some (received_object (calls 0).value (calls 0).disconnected)
unfolding receive_method client_from_py_args
receive_method_lem f calls c = rw (receive_method, receive_once (suc f) calls (omega arith))
