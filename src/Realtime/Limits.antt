-- ===== src/Realtime/Limits.antt =====
-- What the hub of internal/platform/realtime/hub.go keeps to, and what each client is given.
use yop_pms.Prelude.{
  ℕ, ◌≤◌, ◌≡◌, refl, sym, Bool, true, false, not, List, [], ◌∷◌, ◌++◌, length, ◌==◌, if◌then◌else◌,
  subst, delete_where, length-append, length-map, All, All-append, append-append, append-empty,
  All-first, All-second, All-of, arith, Bool-cases, inl, inr,
}
use yop_pms.Realtime.{
  SseMessage, Client, Hub, max_sse_clients, capacity, resync_message, Subscription, subscribe,
  streamed, resolve_property_id, admitted, disconnect, receive, received, is_full, offer, send,
  fan_out, resync, rejected, granted,
}
use yop_pms.Realtime.Delivery.{
  given, Step, joins, leaves, reads, fans, resyncs, Reach, start, later, step_keeps, read_by,
}

given-receive : (c : Client) → given (receive c) ≡ given c
unfolding receive
given-receive c = go c.buffer
  where
    go : (b : List SseMessage) → given (received (record c { buffer = b }) b) ≡ c.written ++ b
    go [] = refl
    go (m ∷ b) = append-append c.written (m ∷ []) b

given-offer :
    (m : SseMessage) (c : Client)
    → given (offer m c) ≡ given c ++ (if is_full c then [] else (m ∷ []))
unfolding offer
given-offer m c = elim (Bool-cases (is_full c)) [
  | inl e ↦ rw e (sym (append-empty (given c)))
  | inr e ↦ rw e (sym (append-append c.written c.buffer (m ∷ [])))
]

-- A client's channel has room after a receive, if it had no more than it can hold.
room_after : (c : Client) → length c.buffer ≤ capacity → is_full (receive c) ≡ false
unfolding receive
room_after c h = go c.buffer h
  where
    go :
        (b : List SseMessage)
        → length b ≤ capacity
        → is_full (received (record c { buffer = b }) b) ≡ false
    go [] h = refl
    go (m ∷ b) h = ground arith

-- A notification is added to what a client is given if its channel has room. If the channel is full
-- the notification is lost, and a resync is added in its place only where the client's loop
-- receives between the two sends. The channel holds no more than its capacity.
pub given-send :
    (drains : Bool) (m : SseMessage) (c : Client)
    → length c.buffer ≤ capacity
    → given (send drains m c)
      ≡ given c ++ (if is_full c then (if drains then (resync_message ∷ []) else []) else (m ∷ []))
unfolding send
given-send drains m c h = ground (
  arith,
  given-offer m c,
  given-offer resync_message c,
  given-offer resync_message (receive c),
  given-receive c,
  room_after c h,
)

abbrev InBuffer : Client → Type 0
InBuffer c = length c.buffer ≤ capacity

offer-InBuffer : (m : SseMessage) (c : Client) → InBuffer c → InBuffer (offer m c)
unfolding offer
offer-InBuffer m c h = ground (arith, length-append c.buffer (m ∷ []))

receive-InBuffer : (c : Client) → InBuffer c → InBuffer (receive c)
unfolding receive
receive-InBuffer c h = go c.buffer h
  where
    go :
        (b : List SseMessage)
        → length b ≤ capacity
        → InBuffer (received (record c { buffer = b }) b)
    go [] h = h
    go (m ∷ b) h = omega arith

send-InBuffer :
    (drains : Bool) (m : SseMessage) (c : Client) → InBuffer c → InBuffer (send drains m c)
unfolding send
send-InBuffer drains m c h = ground (
  arith,
  offer-InBuffer m c h,
  offer-InBuffer resync_message c h,
  receive-InBuffer c h,
  offer-InBuffer resync_message (receive c),
)

length-delete : (p : Client → Bool) (l : List Client) → length (delete_where p l) ≤ length l
unfolding delete_where
length-delete p [] = omega arith
length-delete p (c ∷ l) = ground (arith, length-delete p l)

subscribe_count :
    (hub : Hub) (channel : ℕ) (s : Subscription)
    → length hub.clients ≤ max_sse_clients
    → length (admitted channel hub s).hub.clients ≤ max_sse_clients
subscribe_count hub channel (rejected status message) h = h
subscribe_count hub channel (granted property) h = ground arith

step_count :
    {more : List (ℕ × SseMessage)} {h k : Hub}
    → Step h more k
    → length h.clients ≤ max_sse_clients
    → length k.clients ≤ max_sse_clients
unfolding subscribe disconnect fan_out resync
step_count {h = h} (joins flushes parse raw session channel) n =
    subscribe_count h channel (streamed flushes (resolve_property_id parse raw session)) n
step_count {h = h} (leaves channel) n =
    omega (arith, length-delete (λ c. c.channel == channel) h.clients)
step_count {h = h} (reads channel) n = omega (arith, length-map h.clients (read_by channel))
step_count {h = h} (fans drains property m) n =
    rw
      (length-map h.clients
        (λ c. if not (c.property == property) then c else send (drains c.channel) m c))
      n
step_count {h = h} resyncs n = rw (length-map h.clients (offer resync_message)) n

-- However the hub is used it has at most 1000 clients, and each client's channel at most 64
-- messages.
pub Reach-InBounds :
    (sent : List (ℕ × SseMessage)) (hub : Hub)
    → Reach sent hub
    → (length hub.clients ≤ max_sse_clients) × All (λ c. length c.buffer ≤ capacity) hub.clients
Reach-InBounds _ _ start = (omega arith, tt)
Reach-InBounds _ _ (later {sent = sent} {h = h} r s) =
    let (n, b) = Reach-InBounds sent h r in
    (
      step_count s n,
      step_keeps InBuffer (λ p m. Unit) (λ channel property. omega arith)
          (offer-InBuffer resync_message) (λ drains m c _ k. send-InBuffer drains m c k)
          receive-InBuffer s (All-of (λ e. Unit) (λ e. tt) _) b,
    )

module _ (P : ℕ → SseMessage → Type 0) (signal : (property : ℕ) → P property resync_message) where
  abbrev OfClient : Client → Type 0
  OfClient c = All (P c.property) (given c)

  offer-OfClient :
      (m : SseMessage) (c : Client) → P c.property m → OfClient c → OfClient (offer m c)
  unfolding offer
  offer-OfClient m c p h = elim (Bool-cases (is_full c)) [
    | inl e ↦ rw e h
    | inr e ↦ rw e (
        subst (All (P c.property)) (append-append c.written c.buffer (m ∷ []))
          (All-append (P c.property) (given c) (m ∷ []) h (p, tt)))
  ]

  receive_property : (c : Client) → (receive c).property ≡ c.property
  unfolding receive
  receive_property c = go c.buffer
    where
      go : (b : List SseMessage) → (received (record c { buffer = b }) b).property ≡ c.property
      go [] = refl
      go (m ∷ b) = refl

  receive-OfClient : (c : Client) → OfClient c → OfClient (receive c)
  receive-OfClient c h = rw (receive_property c, given-receive c) h

  signalled :
      (drains : Bool) (c : Client)
      → OfClient c
      → OfClient (offer resync_message (if drains then receive c else c))
  signalled true c h =
      offer-OfClient resync_message (receive c) (signal (receive c).property) (receive-OfClient c h)
  signalled false c h = offer-OfClient resync_message c (signal c.property) h

  send-OfClient :
      (drains : Bool) (m : SseMessage) (c : Client)
      → P c.property m
      → OfClient c
      → OfClient (send drains m c)
  unfolding send
  send-OfClient drains m c p h = elim (Bool-cases (is_full c)) [
    | inl e ↦
        subst
          (λ b.
            OfClient
              (if b then offer resync_message (if drains then receive c else c) else offer m c))
          (sym e) (signalled drains c h)
    | inr e ↦
        subst
          (λ b.
            OfClient
              (if b then offer resync_message (if drains then receive c else c) else offer m c))
          (sym e) (offer-OfClient m c p h)
  ]

  -- A client is given only resyncs and messages that were fanned out for its own property: what
  -- holds of every message and the property that it was fanned out for, and of resyncs, holds of
  -- every message that a client is given and the client's property.
  pub Reach-Isolated :
      (sent : List (ℕ × SseMessage)) (hub : Hub)
      → All (λ e. P e.0 e.1) sent
      → Reach sent hub
      → All (λ c. All (P c.property) (given c)) hub.clients
  Reach-Isolated _ _ all start = tt
  Reach-Isolated _ _ all (later {sent = sent} {more = more} {h = h} r s) =
      step_keeps OfClient P (λ channel property. tt)
        (λ c k. offer-OfClient resync_message c (signal c.property) k) send-OfClient
        receive-OfClient s (All-first (λ e. P e.0 e.1) more sent all)
        (Reach-Isolated sent h (All-second (λ e. P e.0 e.1) more sent all) r)
