-- ===== src/Gateway/Sound.antt =====
-- The gateway over the in-memory chain: what holds in every state that it can reach.
use Prim.Native.Nat.{◌≤◌, ◌-◌, suc}
use flux_lens.Base.{
  ℕ, String, Bool, true, ◌≡◌, refl, Option, List, [], ◌∷◌, ◌++◌, arith, length, All,
}
use flux_lens.Base.Lists.{All-append, All-drop}
use flux_lens.AuditLog.Record.{ok}
use flux_lens.AuditLog.Store.{chain_store}
use flux_lens.AuditLog.Factory.{memory}
use flux_lens.AuditLog.Chain.{Chain, verify}
use flux_lens.AuditLog.Chain.Links.{verify_records_iff}
use flux_lens.AuditLog.Chain.Invariant.{IsValid, append-IsValid}
use flux_lens.Alerts.{Alert}
use flux_lens.Alerts.Store as Alerts
use flux_lens.Llm.{Provider}
use flux_lens.Orchestrator.{new}
use flux_lens.Gateway.{
  Runtime, Readings, Gateway, Server, new_gateway, new_server, raise, is_verified, observe_audit,
  verify_and_observe, add_recent,
}
use flux_lens.Gateway.Live.{System}
use flux_lens.Gateway.Recent.{length-keep_newest}
use flux_lens.Gateway.Closed.{IsOrdinary, IsClosed}
use flux_lens.Gateway.Reachable.{Reachable, with_provider, reachable_keeps}

-- The log is valid and was never found broken, there are no more recent events than the bound
-- allows, and no alert reports a broken log.
pub record IsSound (rt : Runtime) (gate : Gateway Chain) (s : Server Chain) : Type 0 where
  pub log_valid : IsValid rt.enc s.log
  pub fits : length s.recent ≤ gate.max_recent
  pub healthy : s.audit_ok ≡ true
  pub no_breach : All IsOrdinary s.alerts.buf

add-IsOrdinary :
    (since now : ℕ) (a : Alert) (s : Alerts.Store)
    → IsOrdinary a
    → All IsOrdinary s.buf
    → All IsOrdinary (Alerts.add since now a s).buf
unfolding Alerts.add
add-IsOrdinary since now a s o h =
    let longer = All-append IsOrdinary s.buf (a ∷ []) h (o, tt) in
    ground (arith, All-drop IsOrdinary (length (s.buf ++ a ∷ []) - s.max) (s.buf ++ a ∷ []) longer)

raise-IsOrdinary :
    (at : Readings) (n : ℕ) (alerts : List Alert) (s : Alerts.Store)
    → All IsOrdinary alerts
    → All IsOrdinary s.buf
    → All IsOrdinary (raise at n alerts s).buf
unfolding raise
raise-IsOrdinary at n [] s o h = h
raise-IsOrdinary at n (a ∷ more) s o h =
    raise-IsOrdinary at (suc (suc n)) more _ o.1 (add-IsOrdinary _ _ a s o.0 h)

module _ (rt : Runtime) (mock : Provider) (max : ℕ) (wedge : String) (hub : Bool) where
  abbrev pub in_memory : Gateway Chain
  in_memory = new_gateway mock max (chain_store rt.enc) memory wedge hub

  verified : (c : Chain) → IsValid rt.enc c → verify rt.enc c ≡ ok true
  unfolding verify
  verified c v = (verify_records_iff rt.enc c.records).1 v.linked

  IsSound-IsClosed :
      (p : Option Provider) → IsClosed rt (with_provider in_memory p) (IsSound rt in_memory)
  unfolding new_gateway add_recent verify_and_observe observe_audit is_verified Alerts.clear
  IsSound-IsClosed p = record {
    appends = λ now kind payload s h. record {
      log_valid = append-IsValid rt.enc now kind payload s.log h.log_valid;
      fits = h.fits;
      healthy = h.healthy;
      no_breach = h.no_breach;
    };
    remembers = λ e s h. record {
      log_valid = h.log_valid;
      fits = length-keep_newest max (s.recent ++ e ∷ []);
      healthy = h.healthy;
      no_breach = h.no_breach;
    };
    raises = λ at n alerts s o h. record {
      log_valid = h.log_valid;
      fits = h.fits;
      healthy = h.healthy;
      no_breach = raise-IsOrdinary at n alerts s.alerts o h.no_breach;
    };
    sends = λ m s h. record {
      log_valid = h.log_valid;
      fits = h.fits;
      healthy = h.healthy;
      no_breach = h.no_breach;
    };
    clears = λ s h. record {
      log_valid = h.log_valid;
      fits = h.fits;
      healthy = h.healthy;
      no_breach = tt;
    };
    observes = λ at s h.
        rw (verified s.log h.log_valid, is_verified)
          (record {
            log_valid = h.log_valid;
            fits = h.fits;
            healthy = refl;
            no_breach = h.no_breach;
          });
  }

  -- The gateway over the in-memory chain, started with a valid log, whatever requests and messages it
  -- gets and whatever its provider replies: the log stays valid and is never reported as broken, neither
  -- by the server's flag nor by an alert, and there are never more recent events than the bound allows.
  pub reachable-IsSound :
      (keys entries : List String) (log : Chain) (x : System Chain)
      → IsValid rt.enc log
      → Reachable rt in_memory keys entries log x
      → IsSound rt in_memory x.server
  unfolding new_gateway new_server new Alerts.new_store
  reachable-IsSound keys entries log x v run =
      reachable_keeps rt in_memory keys entries log (IsSound rt in_memory) refl IsSound-IsClosed
        (record { log_valid = v; fits = omega arith; healthy = refl; no_breach = tt }) x run
