-- ===== src/StreamHub/Tests.antt =====
-- Three clients, the second of which cannot be written to, and the theorem on them.
use mathlib.Core.List.Permᴰ
use mathlib.Core.List.{Permᴰ}
use flux_lens.Base.{ℕ, Bool, true, not, ◌≡◌, refl, List, [], ◌∷◌, All, eqb, keep_if}
use flux_lens.Base.Json.{str, float, encodable}
use flux_lens.Base.Float.{nan}
use flux_lens.StreamHub.{
  Hub, new_hub, is_client, register, unregister, client_count, envelope, type_event, write_each,
  broadcast, broadcast_json, drop_each,
}
use flux_lens.StreamHub.Broadcasts.{clients_of, broadcast_json_lem}

run : Unit {0}
unfolding is_client register unregister client_count write_each broadcast broadcast_json drop_each
    encodable
run = tt

abbrev hub : Hub
hub = record { clients = 1 ∷ 2 ∷ 3 ∷ [] }

registered : register 3 (register 3 (register 2 (register 1 new_hub))) ≡ hub
unfolding run
registered = refl

abbrev fails : ℕ → Bool
fails c = eqb c 2

abbrev as_is : List ℕ → List ℕ
as_is xs = xs

one_dropped :
    client_count (drop_each (broadcast_json as_is fails type_event (str "x") hub).dropping hub) ≡ 2
unfolding run
one_dropped = refl

-- A value without a JSON form is sent to nobody.
unsent : (broadcast_json as_is fails type_event (float nan) hub).tried ≡ []
unfolding run
unsent = refl

fine : encodable (str "x") ≡ true
unfolding run
fine = refl

dropped : Permᴰ (2 ∷ []) (broadcast_json as_is fails type_event (str "x") hub).dropping
unfolding run
dropped = Permᴰ.refl _

broadcast_json_lem_example :
    ((drop_each (2 ∷ []) hub).clients ≡ keep_if (λ c. not (fails c)) hub.clients)
    × Permᴰ (clients_of (broadcast_json as_is fails type_event (str "x") hub).tried) hub.clients
    × All
        (λ w. w.1 ≡ envelope (record { type = type_event; content = str "x" }))
        (broadcast_json as_is fails type_event (str "x") hub).tried
broadcast_json_lem_example =
    broadcast_json_lem as_is fails type_event (str "x") hub (2 ∷ []) (Permᴰ.refl _) fine dropped
