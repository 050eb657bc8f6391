-- ===== src/StreamHub/Broadcasts.antt =====
-- A broadcast together with the drops that it starts.
use mathlib.Core.List.Permᴰ
use mathlib.Core.List.{Memᴰ, Permᴰ}
use mathlib.Core.Path.{subst}
use flux_lens.Base.{
  ℕ, String, Bool, true, false, not, ◌≡◌, refl, ap, ◌∙◌, sym, List, [], ◌∷◌, inl, inr, arith, any,
  eqb, keep_if, All, Bool-cases, if◌then◌else◌,
}
use flux_lens.Base.Lists.{All-keep_if_test, All-of_mem, mem-keep_if}
use flux_lens.Base.Sorting.{All-of_perm, mem_of_perm}
use flux_lens.Base.Json.{Json, encodable}
use flux_lens.StreamHub.{
  Hub, envelope, write_each, broadcast, broadcast_json, drop_each, unregister,
}

gone : List ℕ → ℕ → Bool
gone ds c = any (λ x. eqb x c) ds

abbrev pub clients_of : List (ℕ × Json) → List ℕ
clients_of [] = []
clients_of ((c, body) ∷ more) = c ∷ clients_of more

unregister_same :
    (d c : ℕ) (cs : List ℕ)
    → eqb c d ≡ true
    → unregister d (record { clients = c ∷ cs }) ≡ unregister d (record { clients = cs })
unfolding unregister
unregister_same d c cs same = rw same refl

unregister_other :
    (d c : ℕ) (cs : List ℕ)
    → eqb c d ≡ false
    → unregister d (record { clients = c ∷ cs })
      ≡ record { clients = c ∷ keep_if (λ x. not (eqb x d)) cs }
unfolding unregister
unregister_other d c cs other = rw other refl

drop_each_cons :
    (ds : List ℕ) (c : ℕ) (cs : List ℕ)
    → (drop_each ds (record { clients = c ∷ cs })).clients ≡ (
        if gone ds c
        then (drop_each ds (record { clients = cs })).clients
        else c ∷ (drop_each ds (record { clients = cs })).clients)
unfolding drop_each unregister gone
drop_each_cons [] c cs = refl
drop_each_cons (d ∷ ds) c cs = elim (Bool-cases (eqb c d)) [
  | inl same ↦
      let e : eqb d c ≡ true = ground arith in
      ap (λ h. (drop_each ds h).clients) (unregister_same d c cs same) ∙ rw e refl
  | inr other ↦
      let e : eqb d c ≡ false = ground arith in
      ap (λ h. (drop_each ds h).clients) (unregister_other d c cs other)
      ∙ drop_each_cons ds c (keep_if (λ x. not (eqb x d)) cs)
      ∙ rw e refl
]

drop_each_nil : (ds : List ℕ) → (drop_each ds (record { clients = [] })).clients ≡ []
unfolding drop_each unregister
drop_each_nil [] = refl
drop_each_nil (d ∷ ds) = drop_each_nil ds

drop_each-keep_if :
    (fails : ℕ → Bool) (ds cs : List ℕ)
    → All (λ c. gone ds c ≡ fails c) cs
    → (drop_each ds (record { clients = cs })).clients ≡ keep_if (λ c. not (fails c)) cs
drop_each-keep_if fails ds [] h = drop_each_nil ds
drop_each-keep_if fails ds (c ∷ cs) h =
    let rest = drop_each-keep_if fails ds cs h.1 in
    drop_each_cons ds c cs ∙ elim (Bool-cases (fails c)) [
      | inl bad ↦ rw (h.0, bad) rest
      | inr fine ↦ rw (h.0, fine) (ap (λ xs. c ∷ xs) rest)
    ]

gone_of_mem : (ds : List ℕ) (c : ℕ) → Memᴰ c ds → gone ds c ≡ true
unfolding gone
gone_of_mem [] c m = elim m [ ]
gone_of_mem (d ∷ ds) c (Memᴰ.head e) = ground arith
gone_of_mem (d ∷ ds) c (Memᴰ.tail m) = ground (arith, gone_of_mem ds c m)

not_gone :
    (fails : ℕ → Bool) (ds : List ℕ) (c : ℕ)
    → All (λ d. fails d ≡ true) ds
    → fails c ≡ false
    → gone ds c ≡ false
unfolding gone
not_gone fails [] c h fine = refl
not_gone fails (d ∷ ds) c h fine = elim (Bool-cases (eqb d c)) [
  | inl same ↦
      let e : d ≡ c = ground arith in
      absurd (clash (sym (subst (λ x. fails x ≡ true) e h.0) ∙ fine))
  | inr other ↦ rw other (not_gone fails ds c h.1 fine)
]
  where
    clash : true ≡ false → ⊥
    clash e = cc

dropping-keep_if :
    (fails : ℕ → Bool) (body : Json) (cs : List ℕ)
    → (write_each fails body cs).dropping ≡ keep_if fails cs
unfolding write_each
dropping-keep_if fails body [] = refl
dropping-keep_if fails body (c ∷ cs) = rw (dropping-keep_if fails body cs) refl

tried-All :
    (fails : ℕ → Bool) (body : Json) (cs : List ℕ)
    → (clients_of (write_each fails body cs).tried ≡ cs)
      × All (λ w. w.1 ≡ body) (write_each fails body cs).tried
unfolding write_each
tried-All fails body [] = (refl, tt)
tried-All fails body (c ∷ cs) =
    let rest = tried-All fails body cs in (ap (λ xs. c ∷ xs) rest.0, (refl, rest.1))

envelope-encodable :
    (type : String) (v : Json)
    → encodable v ≡ true
    → encodable (envelope (record { type = type; content = v })) ≡ true
unfolding encodable
envelope-encodable type v h = rw h refl

-- A message that has a JSON form, whatever order the map is ranged over in: exactly one write of
-- it to each client is tried, and once the drops that the broadcast started have run, in whatever
-- order, the clients are those whose write succeeded, in the order they had.
pub broadcast_json_lem :
    (range : List ℕ → List ℕ) (fails : ℕ → Bool) (type : String) (v : Json) (h : Hub)
    (order : List ℕ)
    → Permᴰ (range h.clients) h.clients
    → encodable v ≡ true
    → Permᴰ order (broadcast_json range fails type v h).dropping
    → ((drop_each order h).clients ≡ keep_if (λ c. not (fails c)) h.clients)
      × Permᴰ (clients_of (broadcast_json range fails type v h).tried) h.clients
      × All
          (λ w. w.1 ≡ envelope (record { type = type; content = v }))
          (broadcast_json range fails type v h).tried
unfolding broadcast_json broadcast
broadcast_json_lem range fails type v h order ranged fine ordered =
    let whole = envelope-encodable type v fine in
    let body = envelope (record { type = type; content = v }) in
    let w = tried-All fails body (range h.clients) in
    rw (fine, whole)
      (
        drop_each-keep_if fails order h.clients (
            agree (
              rw
                (
                  fine,
                  envelope-encodable type v fine,
                  dropping-keep_if fails body (range h.clients),
                )
                at ordered)),
        rw w.0 ranged,
        w.1,
      )
  where
    agree :
        Permᴰ order (keep_if fails (range h.clients)) → All (λ c. gone order c ≡ fails c) h.clients
    agree p = All-of_mem _ h.clients (λ c m. elim (Bool-cases (fails c)) [
      | inl bad ↦
          gone_of_mem order c (
            mem_of_perm (Permᴰ.symm p)
              (mem-keep_if fails (range h.clients) (mem_of_perm (Permᴰ.symm ranged) m) bad))
          ∙ sym bad
      | inr good ↦
          not_gone fails order c (All-of_perm _ p (All-keep_if_test fails (range h.clients))) good
          ∙ sym good
    ])
