-- ===== src/Realtime.antt =====
-- internal/platform/realtime/hub.go: the hub that passes the changes that PostgreSQL notifies on to the browsers,
-- each behind a channel of its own.
pub mod Delivery
pub mod Limits
mod Examples
use Prim.Native.String.{◌++◌ as append}
use text.Mathlib.Text.{◌==◌ as str_eq}
use yop_pms.Prelude.{
  ℕ, zero, suc, String, Bool, true, false, not, ◌||◌, Option, none, some, List, [], ◌∷◌, ◌++◌, map,
  length, leb, ltb, ◌==◌, if◌then◌else◌, delete_where,
}

pub record SseMessage : Type 0 where
  pub event : String
  pub payload : String

-- A client: its channel, the property that it may see, the messages that its channel holds, and
-- those that its loop has written to the response, in order.
pub record Client : Type 0 where
  pub channel : ℕ
  pub property : ℕ
  pub buffer : List SseMessage
  pub written : List SseMessage

pub record Hub : Type 0 where
  pub clients : List Client

abbrev pub max_sse_clients : ℕ
max_sse_clients = 1000

-- make(chan SSEMessage, 64)
abbrev pub capacity : ℕ
capacity = 64

abbrev pub resync_message : SseMessage
resync_message = record { event = "resync"; payload = "{}" }

-- A refusal of a subscription, by its status and message.
pub data Subscription : Type 0 where
  rejected : ℕ → String → Subscription
  granted : ℕ → Subscription

abbrev of_property : ℕ → ℕ → Subscription
of_property session property =
    if session == 0
    then rejected 401 "no authenticated session"
    else if not (session == property)
    then rejected 403 "property access denied"
    else granted property

abbrev parsed_property : ℕ → Option ℕ → Subscription
parsed_property session none = rejected 400 "property_id must be a valid UUID"
parsed_property session (some property) = of_property session property

-- resolvePropertyID; `parse` is uuid.Parse, and `session` the property of the request's context.
unfoldable pub resolve_property_id : (String → Option ℕ) → String → ℕ → Subscription
resolve_property_id parse raw session =
    if str_eq raw ""
    then rejected 400 "property_id query parameter is required"
    else parsed_property session (parse raw)

abbrev pub new_client : ℕ → ℕ → Client
new_client channel property = record {
  channel = channel;
  property = property;
  buffer = [];
  written = [];
}

-- What a subscription comes to, and the hub after it.
pub record Subscribed : Type 0 where
  pub outcome : Subscription
  pub hub : Hub

abbrev admitted : ℕ → Hub → Subscription → Subscribed
admitted channel hub (rejected status message) = record {
  outcome = rejected status message;
  hub = hub;
}
admitted channel hub (granted property) =
    if leb max_sse_clients (length hub.clients)
    then record { outcome = rejected 503 "sse at capacity"; hub = hub }
    else record {
      outcome = granted property;
      hub = record { clients = new_client channel property ∷ hub.clients };
    }

abbrev pub streamed : Bool → Subscription → Subscription
streamed flushes (rejected status message) = rejected status message
streamed flushes (granted property) =
    if flushes then granted property else rejected 500 "streaming unsupported"

-- Subscribe, up to its loop; `flushes` says that the writer is an http.Flusher, and `channel` is the channel that
-- it makes.
unfoldable pub subscribe : Bool → (String → Option ℕ) → String → ℕ → ℕ → Hub → Subscribed
unfolding resolve_property_id
subscribe flushes parse raw session channel hub =
    admitted channel hub (streamed flushes (resolve_property_id parse raw session))

-- The deferred end of Subscribe.
unfoldable pub disconnect : ℕ → Hub → Hub
disconnect channel hub = record { clients = delete_where (λ c. c.channel == channel) hub.clients }

-- A receive from the channel in the client's loop, which writes what it receives.
abbrev pub received : Client → List SseMessage → Client
received c [] = c
received c (m ∷ buffer) = record c { buffer = buffer; written = c.written ++ (m ∷ []) }

unfoldable pub receive : Client → Client
receive c = received c c.buffer

-- The text that the loop writes for a message.
abbrev event_line : SseMessage → String
event_line m = if str_eq m.event "" then "" else append "event: " (append m.event "\n")

unfoldable pub frame : SseMessage → String
frame m = append (event_line m) (append "data: " (append m.payload "\n\n"))

abbrev pub is_full : Client → Bool
is_full c = leb capacity (length c.buffer)

-- A send to the channel that does not block.
unfoldable pub offer : SseMessage → Client → Client
offer m c = if is_full c then c else record c { buffer = c.buffer ++ (m ∷ []) }

-- The two sends of `fanOut` to one client; `drains` says whether the client's loop receives from
-- its full channel between them.
unfoldable pub send : Bool → SseMessage → Client → Client
unfolding offer receive
send drains m c =
    if is_full c then offer resync_message (if drains then receive c else c) else offer m c

-- fanOut
unfoldable pub fan_out : (ℕ → Bool) → ℕ → SseMessage → Hub → Hub
unfolding send
fan_out drains property m hub = record {
  clients =
      map (λ c. if not (c.property == property) then c else send (drains c.channel) m c)
        hub.clients;
}

-- Resync
unfoldable pub resync : Hub → Hub
unfolding offer
resync hub = record { clients = map (offer resync_message) hub.clients }

-- A notification from the listener: the texts of its payload, where it has them.
pub record Notification : Type 0 where
  pub table : Option String
  pub op : Option String
  pub id : Option String
  pub property_id : Option String
  pub version : Option String
  pub at : String

-- The payload of a message.
pub record Payload : Type 0 where
  pub property_id : String
  pub record_id : String
  pub op : String
  pub at : String
  pub version : Option String

abbrev or_empty : Option String → String
or_empty none = ""
or_empty (some s) = s

-- The name of an event, by the table.
unfoldable pub event_name : String → String
event_name table =
    if str_eq table "reservations" || str_eq table "reservation_items"
    then "reservation.changed"
    else if str_eq table "room_inventory_ledger"
    then "availability.changed"
    else if str_eq table "booked_daily_rates"
    then "rate.changed"
    else "change"

-- ConvertEventToSSEMessage; `marshal` is json.Marshal.
unfoldable pub convert_event : (Payload → String) → Notification → SseMessage
unfolding event_name
convert_event marshal n = record {
  event = event_name (or_empty n.table);
  payload = marshal (record {
    property_id = or_empty n.property_id;
    record_id = or_empty n.id;
    op = or_empty n.op;
    at = n.at;
    version = n.version;
  });
}

abbrev fanned : (ℕ → Bool) → SseMessage → Hub → Option ℕ → Hub
fanned drains m hub none = hub
fanned drains m hub (some property) = fan_out drains property m hub

abbrev parsed_id : (String → Option ℕ) → Option String → Option ℕ
parsed_id parse none = none
parsed_id parse (some s) = parse s

-- OnEvent
unfoldable pub on_event :
    (String → Option ℕ) → (Payload → String) → (ℕ → Bool) → Notification → Hub → Hub
unfolding fan_out convert_event
on_event parse marshal drains n hub =
    fanned drains (convert_event marshal n) hub (parsed_id parse n.property_id)
