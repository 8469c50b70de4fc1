-- ===== src/Store/Ids.antt =====
-- cherry/server/store/memory.go: the IDs that getID gives out are new.
use cloud_provider_cherry.Prelude.{
  ℕ, suc, ◌+◌, ◌<◌, ◌≤◌, String, Bool, true, false, none, some, List, [], ◌∷◌, ◌≡◌, refl, sym, ◌∙◌,
  ap, ℤ, pos, negsuc, int_eq, ◌==◌, leb, lookup, insert, erase, all, length, Bool-cases,
  Option-cases, arith, nat_eq,
}
use mathlib.Core.Logic.{inl, inr}
use cloud_provider_cherry.Store.{
  Region, Plan, Project, Server, Memory, increment, get_id, create_region, create_plan,
  create_server, update_server, delete_server, create_project, update_project, new_memory,
}

-- The calls that change the store.
pub data Operation : Type 0 where
  creates_region : String → String → Operation
  creates_plan : String → Operation
  creates_server : ℤ → String → Plan → Region → Operation
  updates_server : ℤ → Server → Operation
  deletes_server : ℤ → Operation
  creates_project : String → Bool → Operation
  updates_project : ℤ → Project → Operation

unfoldable pub step : Operation → Memory → Memory
step (creates_region name code) mem = (create_region name code mem).1
step (creates_plan name) mem = (create_plan name mem).1
step (creates_server project_id name plan region) mem =
    (create_server project_id name plan region mem).1
step (updates_server id server) mem = (update_server id server mem).1
step (deletes_server id) mem = (delete_server id mem).1
step (creates_project name bgp) mem = (create_project name bgp mem).1
step (updates_project id project) mem = (update_project id project mem).1

unfoldable pub run : List Operation → Memory → Memory
unfolding step
run [] mem = mem
run (op ∷ ops) mem = run ops (step op mem)

-- An update of a server is written under the server's own ID.
abbrev pub is_matched : Operation → Bool
is_matched (updates_server id server) = id == server.id
is_matched _ = true

abbrev pub is_below : ℕ → ℤ → Bool
is_below c (pos n) = leb n c
is_below c (negsuc n) = false

abbrev pub keys_below : ℕ → List (ℤ × Server) → Bool
keys_below c m = all (λ p. is_below c p.0) m

-- The counter is `c`, and no server has a greater ID.
abbrev pub IsCounted : ℕ → Memory → Type 0
IsCounted c mem = (mem.counter ≡ pos c) × (keys_below c mem.servers ≡ true)

is_below-suc : (c : ℕ) (k : ℤ) → is_below c k ≡ true → is_below (suc c) k ≡ true
is_below-suc c (pos n) h = ground arith
is_below-suc c (negsuc n) h = h

keys_below-suc :
    (c : ℕ) (m : List (ℤ × Server)) → keys_below c m ≡ true → keys_below (suc c) m ≡ true
keys_below-suc c [] h = refl
keys_below-suc c ((k, v) ∷ m) h = ground (arith, is_below-suc c k, keys_below-suc c m)

keys_below-insert :
    (c : ℕ) (k : ℤ) (v : Server) (m : List (ℤ × Server))
    → is_below c k ≡ true
    → keys_below c m ≡ true
    → keys_below c (insert k v m) ≡ true
unfolding insert
keys_below-insert c k v [] hk h = ground arith
keys_below-insert c k v ((j, w) ∷ m) hk h = ground (arith, keys_below-insert c k v m)

keys_below-erase :
    (c : ℕ) (k : ℤ) (m : List (ℤ × Server))
    → keys_below c m ≡ true
    → keys_below c (erase k m) ≡ true
unfolding erase
keys_below-erase c k [] h = refl
keys_below-erase c k ((j, w) ∷ m) h = ground (arith, keys_below-erase c k m)

lookup-is_below :
    (c : ℕ) (k : ℤ) {v : Server} (m : List (ℤ × Server))
    → keys_below c m ≡ true
    → lookup k m ≡ some v
    → is_below c k ≡ true
unfolding lookup
lookup-is_below c k {v} [] h e = cc
lookup-is_below c k {v} ((j, w) ∷ m) h e = elim (Bool-cases (j == k)) [
  | inl s ↦ sym (ap (is_below c) ((int_eq.beq_iff j k).0 s)) ∙ ground arith
  | inr s ↦ lookup-is_below c k {v = v} m (ground arith) (rw (s, lookup) at e)
]

keys_below-absent :
    (c : ℕ) (k : ℤ) (m : List (ℤ × Server))
    → keys_below c m ≡ true
    → is_below c k ≡ false
    → lookup k m ≡ none
keys_below-absent c k m h hk = elim (Option-cases (lookup k m)) [
  | inl e ↦ e
  | inr (v, e) ↦ absurd_bool (lookup-is_below c k {v = v} m h e) hk
]
  where
    absurd_bool : {A : Type 0} {b : Bool} → b ≡ true → b ≡ false → A
    absurd_bool s t = cc

increment-pos : (c : ℕ) → c < 9223372036854775807 → increment (pos c) ≡ pos (suc c)
increment-pos c h = ground arith

is_below_self : (c : ℕ) → is_below c (pos c) ≡ true
is_below_self c = ground arith

-- One step: the counter grows by one at most, and stays above all IDs.
step-IsCounted :
    (op : Operation) (c : ℕ) (mem : Memory)
    → is_matched op ≡ true
    → c < 9223372036854775807
    → IsCounted c mem
    → (c' : ℕ) × (c' ≤ suc c) × IsCounted c' (step op mem)
unfolding step create_region create_plan create_server create_project update_server delete_server
    update_project get_id
step-IsCounted (creates_region name code) c mem u h (e, b) =
    (suc c, omega arith, (ap increment e ∙ increment-pos c h, keys_below-suc c mem.servers b))
step-IsCounted (creates_plan name) c mem u h (e, b) =
    (suc c, omega arith, (ap increment e ∙ increment-pos c h, keys_below-suc c mem.servers b))
step-IsCounted (creates_project name bgp) c mem u h (e, b) =
    (suc c, omega arith, (ap increment e ∙ increment-pos c h, keys_below-suc c mem.servers b))
step-IsCounted (creates_server project_id name plan region) c mem u h (e, b) =
    let next = ap increment e ∙ increment-pos c h in
    (
      suc c,
      omega arith,
      (
        next,
        keys_below-insert (suc c) (increment mem.counter) _ mem.servers
            (ap (is_below (suc c)) next ∙ is_below_self (suc c)) (keys_below-suc c mem.servers b),
      ),
    )
step-IsCounted (updates_server id server) c mem u h (e, b) =
    elim (Option-cases (lookup server.id mem.servers)) [
      | inl l ↦ (c, omega arith, (rw (l, step, update_server) e, rw (l, step, update_server) b))
      | inr (v, l) ↦ (
        c,
        omega arith,
        (
          rw (l, step, update_server) e,
          rw (l, step, update_server)
              (keys_below-insert c id server mem.servers
                (ap (is_below c) ((int_eq.beq_iff id server.id).0 u)
                  ∙ lookup-is_below c server.id {v = v} mem.servers b l)
                b),
        ),
      )
    ]
step-IsCounted (deletes_server id) c mem u h (e, b) = elim (Option-cases (lookup id mem.servers)) [
  | inl l ↦ (c, omega arith, (rw (l, step, delete_server) e, rw (l, step, delete_server) b))
  | inr (v, l) ↦ (
    c,
    omega arith,
    (
      rw (l, step, delete_server) e,
      rw (l, step, delete_server) (keys_below-erase c id mem.servers b),
    ),
  )
]
step-IsCounted (updates_project id project) c mem u h (e, b) =
    elim (Bool-cases (id == project.id)) [
      | inl s ↦ elim (Option-cases (lookup project.id mem.projects)) [
        | inl l ↦
            (c, omega arith, (rw (s, l, step, update_project) e, rw (s, l, step, update_project) b))
        | inr (v, l) ↦
            (c, omega arith, (rw (s, l, step, update_project) e, rw (s, l, step, update_project) b))
      ]
      | inr s ↦ (c, omega arith, (rw (s, step, update_project) e, rw (s, step, update_project) b))
    ]

run-IsCounted :
    (ops : List Operation) (c : ℕ) (mem : Memory)
    → all is_matched ops ≡ true
    → c + length ops < 9223372036854775807
    → IsCounted c mem
    → (c' : ℕ) × (c' ≤ c + length ops) × IsCounted c' (run ops mem)
unfolding run
run-IsCounted [] c mem u h inv = (c, omega arith, inv)
run-IsCounted (op ∷ ops) c mem u h inv =
    let (c₁, below₁, inv₁) = step-IsCounted op c mem (ground arith) (omega arith) inv in
    let (c₂, below₂, inv₂) = run-IsCounted ops c₁ (step op mem) (ground arith) (omega arith) inv₁ in
    (c₂, omega arith, inv₂)

new_memory-IsCounted : IsCounted 2 new_memory
unfolding new_memory create_plan create_region get_id
new_memory-IsCounted = (refl, refl)

-- After any calls on a new store (fewer than 2^63 - 3 of them, each update of a server under the
-- server's own ID), the next ID is not that of a server in the store.
pub next_id_is_new :
    (ops : List Operation)
    → all is_matched ops ≡ true
    → length ops < 9223372036854775805
    → lookup (get_id (run ops new_memory)).0 (run ops new_memory).servers ≡ none
unfolding get_id
next_id_is_new ops u h =
    let (c, below, (counter, keys)) =
      run-IsCounted ops 2 new_memory u (omega arith) new_memory-IsCounted in
    keys_below-absent c _ (run ops new_memory).servers keys (
      ap (λ k. is_below c (increment k)) counter
      ∙ ap (is_below c) (increment-pos c (omega arith))
      ∙ above c)
  where
    above : (c : ℕ) → is_below c (pos (suc c)) ≡ false
    above c = ground arith
