-- ===== src/Alerts/Store.antt =====
-- The in-memory ring of alerts, internal/alerts/store.go. Each method holds the mutex throughout,
-- so it is one step on the state. Add reads the clock twice: `since` is read for the age of the
-- last alert, `now` for the new entry.
pub mod Reversal
pub mod History
pub mod Dedupe
use Prim.Native.String
use flux_lens.Base.{
  ℕ, zero, suc, ◌-◌, ◌*◌, String, Bool, true, false, Option, none, some, List, [], ◌∷◌, ◌++◌, ◌==◌,
  ltb, length, drop, get_elem?, set, if◌then◌else◌, ◌&&◌,
}
use flux_lens.Base.Signed.{ℤ, pos, positive_or, lt_ℤ}
use flux_lens.Base.Time.{second, sub_time}
use flux_lens.Base.Dict.{Dict, find, assign}
use flux_lens.Alerts.{Alert}

pub record Store : Type 0 where
  pub buf : List Alert
  pub max : ℕ
  pub dedupe : ℕ
  pub last_rule : Dict ℕ

unfoldable pub new_store : ℤ → Store
new_store max = record { buf = []; max = positive_or max 200; dedupe = 45 * second; last_rule = [] }

abbrev or_empty : Option String → String
or_empty none = ""
or_empty (some s) = s

-- `Ref["event_id"]`, which is empty for a nil map and for a missing key
event_of : Option (Dict String) → String
event_of none = ""
event_of (some ref) = or_empty (find ref "event_id")

unfoldable pub dedupe_key : Alert → String
unfolding event_of
dedupe_key a =
    if event_of a.ref == ""
    then a.rule_id
    else String.◌++◌ (String.◌++◌ a.rule_id "|evt|") (event_of a.ref)

-- `ok && time.Since(prev) < s.dedupe`
is_recent : ℕ → ℕ → Option ℕ → Bool
is_recent dedupe since none = false
is_recent dedupe since (some prev) = lt_ℤ (sub_time since prev) (pos dedupe)

-- buf[len(buf)-max:] where the buffer is longer than max
trim : ℕ → List Alert → List Alert
trim max buf = if ltb max (length buf) then drop (length buf - max) buf else buf

push : Alert → Store → Store
push a s = record s { buf = trim s.max (s.buf ++ a ∷ []) }

unfoldable pub add : ℕ → ℕ → Alert → Store → Store
unfolding push trim is_recent
add since now a s =
    if ltb 0 s.dedupe
    then (let key = dedupe_key a in
        if is_recent s.dedupe since (find s.last_rule key)
        then s
        else push a (record s { last_rule = assign s.last_rule key now }))
    else push a s

-- out[i], out[j] = out[j], out[i]; both places are inside the slice in the loop of Snapshot
exchange : {A : Type 0} → Option A → Option A → ℕ → ℕ → List A → List A
exchange (some x) (some y) i j out = set (set out i y) j x
exchange _ _ i j out = out

-- for i < j, on fuel
swap_loop : {A : Type 0} → ℕ → ℕ → ℕ → List A → List A
swap_loop zero i j out = out
swap_loop (suc fuel) i j out =
    let rest =
      swap_loop fuel (suc i) (j - 1) (exchange (get_elem? out i) (get_elem? out j) i j out) in
    if ltb i j then rest else out

unfoldable pub snapshot : Store → List Alert
unfolding swap_loop exchange
snapshot s = swap_loop (length s.buf) 0 (length s.buf - 1) s.buf

unfoldable pub len : Store → ℕ
len s = length s.buf

unfoldable pub clear : Store → Store
clear s = record s { buf = []; last_rule = [] }
