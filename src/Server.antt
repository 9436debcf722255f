-- ===== src/Server.antt =====
-- macdetectd/include/macdetectd/Server.h and macdetectd/src/Server.cpp: the sockets that clients
-- connect to. A pointer to a `Served` is a number. What the system answers to `socket`, `bind`,
-- `listen`, `accept4` and to the reads of the clients is an argument.
pub mod Loops
pub mod Ids
pub mod Apart
pub mod Connections
pub mod Delivery
pub mod Queue
mod Tests
use macdetect.Base.{
  ℕ, zero, suc, ◌+◌, Bool, true, false, ◌&&◌, ◌||◌, List, [], ◌∷◌, ◌++◌, map, Option, none, some,
  Text, text, str_eq, ◌==◌, any, take_first, length, if◌then◌else◌,
}
use macdetect.Value.{Value, add, make}

pub data Status : Type 0 where
  invalid started stopped : Status

pub record Serving : Type 0 where
  pub status : Status
  pub id : ℕ
  pub socket : ℕ
  pub device_name : Text
  pub port : ℕ

pub record QueuedValue : Type 0 where
  pub value : Value
  pub served : ℕ
  pub serving_id : ℕ

pub record Server : Type 0 where
  pub server_name : Text
  pub run : Bool
  pub servings : List Serving
  pub served : List (ℕ × ℕ)
  pub value_queue : List QueuedValue
  pub removed : List ℕ

-- The values that were handed to `send`, with their receivers.
abbrev pub Sent : Type 0
Sent = List (ℕ × Value)

-- `freeServingID`: the loop tries the numbers from `id` on. `none`: the fuel is used up.
unfoldable pub free_id_from : ℕ → ℕ → List Serving → Option ℕ
free_id_from zero id servings = none
free_id_from (suc f) id servings =
    let next = free_id_from f (id + 1) servings in
    if any (λ s. s.id == id) servings then next else some id

-- One more round than there are numbers up to the largest one in use.
abbrev pub id_bound : List Serving → ℕ
id_bound [] = 0
id_bound (s ∷ ss) = suc s.id + id_bound ss

unfoldable pub free_serving_id : List Serving → Option ℕ
free_serving_id servings = free_id_from (suc (id_bound servings)) 0 servings

-- `servingByID`; `none` is the entry `{Serving::Invalid, -1, -1, "", 0}`.
unfoldable pub serving_by_id : List Serving → ℕ → Option Serving
serving_by_id [] id = none
serving_by_id (s ∷ ss) id = if s.id == id then some s else serving_by_id ss id

-- `serve`, with the socket, if there is one, and whether `bind` works.
unfoldable pub serve : Option ℕ → Bool → Server → Text → ℕ → Server × Bool
serve new_socket bound s name port =
    if any (λ v. str_eq v.device_name name && v.port == port) s.servings
    then (s, false)
    else (elim new_socket [
      | none ↦ (s, false)
      | some fd ↦
          if bound
          then (elim (free_serving_id s.servings) [
            | none ↦ (s, false)
            | some id ↦ (
              record s {
                servings =
                    s.servings
                    ++ (record {
                      status = stopped;
                      id = id;
                      socket = fd;
                      device_name = name;
                      port = port;
                    }
                        ∷ []);
              },
              true,
            )
          ])
          else (s, false)
    ])

pub data Accept : Type 0 where
  accepted : ℕ → Accept
  would_block : Accept
  accept_failed : Accept

-- The answers to a serving socket.
pub record Answer : Type 0 where
  pub listens : Bool
  pub accept : Accept

-- What `receive` gives for a client: a value, or none, with the failure state behind it. A call that
-- reads behind the end of its buffer, `overrun` in Packet, has no result and is left out.
pub data Received : Type 0 where
  got : Value → Received
  nothing : (failure_state : Bool) → Received

pub record Clients : Type 0 where
  pub answer : Serving → Answer
  pub received : ℕ → Received

unfoldable pub hello : Text → Value
hello name =
    let info =
      add (make (text "detail") (text "server-info") []) (make (text "server-name") name []) in
    add (make (text "info") (text "hello") []) info

unfoldable pub listening : Bool → Serving → Serving
listening listens v = elim v.status [
  | stopped ↦ if listens then record v { status = started } else record v { status = invalid }
  | _ ↦ v
]

-- The body of the first loop of `cycle`: the socket after it, and the client that was accepted.
unfoldable pub poll : Answer → Serving → Serving × List (ℕ × ℕ)
unfolding listening
poll a v = elim a.accept [
  | accepted handle ↦ (listening a.listens v, (handle, v.id) ∷ [])
  | would_block ↦ (listening a.listens v, [])
  | accept_failed ↦ (record (listening a.listens v) { status = invalid }, [])
]

unfoldable pub is_dead : Serving → Bool
is_dead v = elim v.status [ invalid ↦ true | stopped ↦ true | started ↦ false ]

-- The second loop of `cycle`, which closes a socket in each round.
unfoldable pub close_dead : ℕ → List Serving → List Serving
unfolding is_dead
close_dead zero vs = vs
close_dead (suc f) vs = elim (take_first is_dead vs) [
  | none ↦ vs
  | some (_, rest) ↦ close_dead f rest
]

-- The third loop: the values that came in, and the clients whose connection failed.
unfoldable pub receive_all : (ℕ → Received) → List (ℕ × ℕ) → List QueuedValue × List ℕ
receive_all received [] = ([], [])
receive_all received ((handle, id) ∷ cs) =
    let (values, failed) = receive_all received cs in
    elim (received handle) [
      | got v ↦ (record { value = v; served = handle; serving_id = id } ∷ values, failed)
      | nothing true ↦ (values, handle ∷ failed)
      | nothing false ↦ (values, failed)
    ]

-- The last loop: each failed client is taken from the list of the clients.
unfoldable pub drop_served : List (ℕ × ℕ) → List ℕ → List ℕ → List (ℕ × ℕ) × List ℕ
drop_served served removed [] = (served, removed)
drop_served served removed (h ∷ hs) = elim (take_first (λ (c : ℕ × ℕ). c.0 == h) served) [
  | none ↦ drop_served served removed hs
  | some (_, rest) ↦ drop_served rest (removed ++ (h ∷ [])) hs
]

abbrev pub flat : {A B : Type 0} → List (A × List B) → List B
flat [] = []
flat ((_, ys) ∷ r) = ys ++ flat r

-- `cycle`: the server after it, the values that it sent, and its result.
unfoldable pub cycle : Clients → Server → Server × Sent × Bool
unfolding poll close_dead receive_all drop_served
cycle env s =
    let polled = map (λ v. poll (env.answer v) v) s.servings in
    let accepted_now = flat polled in
    let connected = s.served ++ accepted_now in
    let (values, failed) = receive_all env.received connected in
    let (served, removed) = drop_served connected s.removed failed in
    let after = record s {
      servings = close_dead (length s.servings) (map (λ p. p.0) polled);
      served = served;
      value_queue = s.value_queue ++ values;
      removed = removed;
    } in
    if s.run
    then (after, map (λ c. (c.0, hello s.server_name)) accepted_now, true)
    else (s, [], false)

unfoldable pub shutdown : Server → Server
shutdown s = record s { run = false }

unfoldable pub set_server_name : Server → Text → Server
set_server_name s name = record s { server_name = name }

-- `queuedValues` and `removed` empty their lists.
unfoldable pub queued_values : Server → Server × List QueuedValue
queued_values s = (record s { value_queue = [] }, s.value_queue)

unfoldable pub take_removed : Server → Server × List ℕ
take_removed s = (record s { removed = [] }, s.removed)

unfoldable pub distribute_stream_value : Server → Value → Sent
distribute_stream_value s v = map (λ c. (c.0, v)) s.served
