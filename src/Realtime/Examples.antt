-- ===== src/Realtime/Examples.antt =====
-- The hub of internal/platform/realtime/hub.go at concrete notifications.
use yop_pms.Prelude.{
  true, ℕ, ◌≤◌, ◌≡◌, ◌⊎◌, inl, inr, refl, String, false, Option, some, [], ◌∷◌, length, replicate,
  All,
}
use yop_pms.Realtime.{SseMessage, Client, Hub, max_sse_clients, capacity, subscribe, fan_out}
use yop_pms.Realtime.Delivery.{given, joins, fans, Reach, start, later}
use yop_pms.Realtime.Limits.{Reach-InBounds, Reach-Isolated}

abbrev changed : SseMessage
changed = record { event = "reservation.changed"; payload = "{}" }

abbrev slow : Client
slow = record { channel = 9; property = 1; buffer = replicate 64 changed; written = [] }

abbrev parse_one : String → Option ℕ
parse_one s = some 1

abbrev joined : Hub
joined = (subscribe true parse_one "1" 1 9 (record { clients = [] })).hub

abbrev told : Hub
told = fan_out (λ channel. false) 1 changed joined

told_reached : Reach ((1, changed) ∷ []) told
told_reached =
    later (later start (joins true parse_one "1" 1 9)) (fans (λ channel. false) 1 changed)

Reach-InBounds_example :
    (length told.clients ≤ max_sse_clients) × All (λ c. length c.buffer ≤ capacity) told.clients
Reach-InBounds_example = Reach-InBounds ((1, changed) ∷ []) told told_reached

-- A resync, or a change for the first property.
abbrev ResyncOrFirst : ℕ → SseMessage → Type 0
ResyncOrFirst property m =
    (m.event ≡ "resync") ⊎ ((property ≡ 1) × (m.event ≡ "reservation.changed"))

Reach-Isolated_example : All (λ c. All (ResyncOrFirst c.property) (given c)) told.clients
Reach-Isolated_example =
    Reach-Isolated ResyncOrFirst (λ property. inl refl) ((1, changed) ∷ []) told
      (inr (refl, refl), tt) told_reached
