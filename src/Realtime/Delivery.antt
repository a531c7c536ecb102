-- ===== src/Realtime/Delivery.antt =====
-- The hub of internal/platform/realtime/hub.go through subscriptions, notifications, resyncs and reads, in any
-- order: its limits, and who gets which message.
use yop_pms.Prelude.{
  ℕ, String, Bool, not, Option, List, [], ◌∷◌, ◌++◌, map, length, leb, ◌==◌, if◌then◌else◌,
  delete_where, All, Bool-cases, inl, inr, subst, sym, ==_iff,
}
use yop_pms.Realtime.{
  SseMessage, Client, Hub, max_sse_clients, resync_message, Subscription, subscribe, streamed,
  resolve_property_id, disconnect, receive, offer, send, fan_out, resync, new_client, rejected,
  granted, admitted,
}

-- All the messages that a client has been given, in order.
abbrev pub given : Client → List SseMessage
given c = c.written ++ c.buffer

abbrev pub read_by : ℕ → Client → Client
read_by channel c = if c.channel == channel then receive c else c

-- One step of the hub. `fans` is a notification for a property and the message made of it.
pub data Step (hub : Hub) : List (ℕ × SseMessage) → Hub → Type 0 where
  joins :
      (flushes : Bool) (parse : String → Option ℕ) (raw : String) (session channel : ℕ)
      → Step hub [] (subscribe flushes parse raw session channel hub).hub
  leaves : (channel : ℕ) → Step hub [] (disconnect channel hub)
  reads : (channel : ℕ) → Step hub [] (record { clients = map (read_by channel) hub.clients })
  fans :
      (drains : ℕ → Bool) (property : ℕ) (m : SseMessage)
      → Step hub ((property, m) ∷ []) (fan_out drains property m hub)
  resyncs : Step hub [] (resync hub)

-- The hubs that steps lead to from an empty one, with the messages that were fanned out.
pub data Reach : List (ℕ × SseMessage) → Hub → Type 0 where
  start : Reach [] (record { clients = [] })
  later :
      {sent more : List (ℕ × SseMessage)} {h k : Hub}
      → Reach sent h
      → Step h more k
      → Reach (more ++ sent) k

module _ (P : Client → Type 0) where
  All-delete : (p : Client → Bool) (l : List Client) → All P l → All P (delete_where p l)
  unfolding delete_where
  All-delete p [] h = h
  All-delete p (c ∷ l) (h, k) = elim (Bool-cases (p c)) [
    | inl e ↦ rw e (All-delete p l k)
    | inr e ↦ rw e (h, All-delete p l k)
  ]

  All-map :
      (f : Client → Client)
      → ((c : Client) → P c → P (f c))
      → (l : List Client) → All P l
      → All P (map f l)
  All-map f k [] h = h
  All-map f k (c ∷ l) (h, hs) = (k c h, All-map f k l hs)

  -- What a client keeps when it joins, is sent to and reads; `Sent` is known of each message that is
  -- fanned out and its property.
  module _ (Sent : ℕ → SseMessage → Type 0)
      (joined : (channel property : ℕ) → P (new_client channel property))
      (offered : (c : Client) → P c → P (offer resync_message c))
      (sends : (drains : Bool) (m : SseMessage) (c : Client)
        → Sent c.property m
        → P c
        → P (send drains m c))
      (reading : (c : Client) → P c → P (receive c)) where
    subscribe_keeps :
        (flushes : Bool) (parse : String → Option ℕ) (raw : String) (session channel : ℕ)
        (hub : Hub)
        → All P hub.clients
        → All P (subscribe flushes parse raw session channel hub).hub.clients
    unfolding subscribe
    subscribe_keeps flushes parse raw session channel hub h =
        go (streamed flushes (resolve_property_id parse raw session))
      where
        go : (s : Subscription) → All P (admitted channel hub s).hub.clients
        go (rejected status message) = h
        go (granted property) = elim (Bool-cases (leb max_sse_clients (length hub.clients))) [
          | inl e ↦ rw e h
          | inr e ↦ rw e (joined channel property, h)
        ]

    fan_out_one :
        (drains : ℕ → Bool) (property : ℕ) (m : SseMessage) (c : Client)
        → Sent property m
        → P c
        → P (if not (c.property == property) then c else send (drains c.channel) m c)
    fan_out_one drains property m c s h = elim (Bool-cases (c.property == property)) [
      | inl e ↦ rw e (
          sends (drains c.channel) m c
            (subst (λ p. Sent p m) (sym ((==_iff c.property property).0 e)) s) h)
      | inr e ↦ rw e h
    ]

    read_keeps : (channel : ℕ) (c : Client) → P c → P (read_by channel c)
    read_keeps channel c h = elim (Bool-cases (c.channel == channel)) [
      | inl e ↦ rw e (reading c h)
      | inr e ↦ rw e h
    ]

    pub step_keeps :
        {more : List (ℕ × SseMessage)} {h k : Hub}
        → Step h more k
        → All (λ e. Sent e.0 e.1) more
        → All P h.clients
        → All P k.clients
    unfolding disconnect fan_out resync
    step_keeps {h = h} (joins flushes parse raw session channel) s p =
        subscribe_keeps flushes parse raw session channel h p
    step_keeps {h = h} (leaves channel) s p = All-delete (λ c. c.channel == channel) h.clients p
    step_keeps {h = h} (reads channel) s p =
        All-map (read_by channel) (read_keeps channel) h.clients p
    step_keeps {h = h} (fans drains property m) (s, _) p =
        All-map _ (λ c. fan_out_one drains property m c s) h.clients p
    step_keeps {h = h} resyncs s p = All-map _ offered h.clients p
