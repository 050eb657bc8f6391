-- ===== src/AuditLog/Postgres/Opening.antt =====
-- Open on a tenant's table.
use Prim.Native.Nat.{◌^◌, ◌<◌, ◌≤◌}
use mathlib.Core.Path.{subst}
use flux_lens.Base.{
  ◌+◌, ◌%◌, String, ◌≡◌, refl, sym, ap, ◌∙◌, Option, none, some, List, ◌==◌, arith, All,
  if◌then◌else◌,
}
use flux_lens.Base.Lists.{All-imp}
use flux_lens.AuditLog.Record.{Record, Encoding}
use flux_lens.AuditLog.Chain.Links.{last_hash, IsLinked}
use flux_lens.AuditLog.Postgres.{
  Head, no_rows, newest, not_read, PgOpened, ready, not_open, loaded, open_pg, load_head, Database,
  PgStore,
}
use flux_lens.AuditLog.Postgres.Law.{IsDatabase, ReadsHead}
use flux_lens.AuditLog.Postgres.Writer.{IsCurrent}

module _ {D : Type 0} (sql : Database D) (enc : Encoding) (view : String → D → List Record)
    (back : Record → Record) (law : IsDatabase sql view back) where
  abbrev store_in : PgStore D → PgOpened D → PgStore D
  store_in s (ready s') = s'
  store_in s (not_open e) = s

  loaded-IsTip :
      (h : Head) (s s' : PgStore D)
      → ReadsHead sql view
      → s.head_hash ≡ ""
      → sql.select_head s.tenant s.db ≡ h
      → IsLinked enc "" (view s.tenant s.db)
      → loaded sql h s ≡ ready s'
      → IsCurrent sql enc view back law s'
  unfolding loaded
  loaded-IsTip (not_read text) s s' reads fresh run linked e = cc
  loaded-IsTip no_rows s s' reads fresh run linked e =
      let nothing = reads.empties s.tenant s.db run in
      subst (IsCurrent sql enc view back law) (ap (store_in s) e) (record {
        linked = linked;
        at_head = fresh ∙ ap (last_hash "") (sym nothing);
        below = subst (All (λ r. r.sequence < s.next_seq)) (sym nothing) tt;
      })
  loaded-IsTip (newest seq hash) s s' reads fresh run linked e =
      let (last, bound, small) = reads.heads s.tenant s.db seq hash run in
      subst (IsCurrent sql enc view back law) (ap (store_in s) e) (record {
        linked = linked;
        at_head = last;
        below =
            All-imp (λ r. r.sequence ≤ seq) (λ r. r.sequence < (seq + 1) % 2 ^ 64)
              (view s.tenant s.db) (λ r l. omega (arith, l, small)) bound;
      })

  -- Open on a table whose rows of the tenant are linked gives a current store.
  pub open_pg-IsTip :
      (ping : Option String) (tenant : String) (db : D) (s : PgStore D)
      → ReadsHead sql view
      → IsLinked enc "" (view (if tenant == "" then "default" else tenant) db)
      → open_pg sql ping tenant db ≡ ready s
      → IsCurrent sql enc view back law s
  unfolding open_pg load_head
  open_pg-IsTip (some text) tenant db s reads linked e = cc
  open_pg-IsTip none tenant db s reads linked e = loaded-IsTip _ _ s reads refl refl linked e
