-- ===== src/StreamHub.antt =====
-- internal/stream/hub.go: the clients that get live updates. A connection is a number; whether a write to
-- it succeeds, and the order of a range over the map of clients, are given.
pub mod Broadcasts
pub mod Tests
use flux_lens.Base.{
  ℕ, String, Bool, true, false, not, List, [], ◌∷◌, ◌++◌, any, eqb, keep_if, length, if◌then◌else◌,
}
use flux_lens.Base.Json.{Json, str, obj, object, encodable}

abbrev pub type_event : String
type_event = "event"

abbrev pub type_digest : String
type_digest = "digest"

abbrev pub type_decision : String
type_decision = "decision"

abbrev pub type_alert : String
type_alert = "alert"

pub record Message : Type 0 where
  pub type : String
  pub content : Json

-- The keys of the map.
pub record Hub : Type 0 where
  pub clients : List ℕ

abbrev pub new_hub : Hub
new_hub = record { clients = [] }

unfoldable pub is_client : ℕ → Hub → Bool
is_client c h = any (λ x. eqb x c) h.clients

unfoldable pub register : ℕ → Hub → Hub
unfolding is_client
register c h = if is_client c h then h else record { clients = h.clients ++ c ∷ [] }

unfoldable pub unregister : ℕ → Hub → Hub
unregister c h = record { clients = keep_if (λ x. not (eqb x c)) h.clients }

unfoldable pub client_count : Hub → ℕ
client_count h = length h.clients

-- The JSON text is that of this value.
abbrev pub envelope : Message → Json
envelope msg = obj (object (("type", str msg.type) ∷ ("data", msg.content) ∷ []))

-- The calls of WriteMessage of a broadcast, and the clients whose call failed, for which it starts a
-- drop.
pub record Writes : Type 0 where
  pub tried : List (ℕ × Json)
  pub dropping : List ℕ

abbrev pub nothing_tried : Writes
nothing_tried = record { tried = []; dropping = [] }

-- The loop over the clients.
unfoldable pub write_each : (ℕ → Bool) → Json → List ℕ → Writes
write_each fails body [] = nothing_tried
write_each fails body (c ∷ more) =
    let rest = write_each fails body more in
    record {
      tried = (c, body) ∷ rest.tried;
      dropping = if fails c then c ∷ rest.dropping else rest.dropping;
    }

module _ (range : List ℕ → List ℕ) where
  unfoldable pub broadcast : (ℕ → Bool) → Message → Hub → Writes
  unfolding write_each
  broadcast fails msg h =
      if encodable (envelope msg)
      then write_each fails (envelope msg) (range h.clients)
      else nothing_tried

  unfoldable pub broadcast_json : (ℕ → Bool) → String → Json → Hub → Writes
  unfolding broadcast
  broadcast_json fails type v h =
      if encodable v then broadcast fails (record { type = type; content = v }) h else nothing_tried

-- The goroutines that drop clients, in the order in which they get the lock.
unfoldable pub drop_each : List ℕ → Hub → Hub
unfolding unregister
drop_each [] h = h
drop_each (c ∷ more) h = drop_each more (unregister c h)
