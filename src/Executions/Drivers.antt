-- ===== src/Executions/Drivers.antt =====
-- The lease of the dispatch loop on an execution: claim_driver, heartbeat_driver, release_driver and
-- release_drivers_on_host of reflowfy/reflow_manager/execution.py.
use mathlib.Core.Option
use reflowfy.Prelude.{
  ℕ, ◌+◌, ◌≤◌, String, Bool, true, false, Option, none, some, List, [], ◌∷◌, ◌≡◌, ◌≢◌, refl, arith,
  ◌==◌, string_eq, nat_eq, All, ◌∙◌, ap, if◌then◌else◌,
}
use reflowfy.Prelude.Sql.{update, update_row}
use reflowfy.Prelude.Keyed.{
  IsKeyed, find, find-update, find-update_self, update-IsKeyed, count_keyed, at_key,
}
use native.Mathlib.Nat.{le_refl}
use reflowfy.Executions.{
  Execution, Table, key, claim_driver, heartbeat_driver, release_driver, release_drivers_on_host,
  may_drive, take_lease, drives, drop_lease, is_on_host,
}

-- What a loop does about the lease of an execution.
pub data Act : Type 0 where
  claims : (driver : String) (lease : ℕ) → Act
  beats : (driver : String) → Act
  releases : (driver : String) → Act
  host_restarts : (on_host : String → Bool) → Act

-- An act on an execution at a time, and the table after it.
unfoldable pub act : ℕ × String × Act → Table → Table
unfolding claim_driver heartbeat_driver release_driver release_drivers_on_host
act (now, i, Act.claims d lease) t = (claim_driver now i d lease t).1
act (now, i, Act.beats d) t = (heartbeat_driver now i d t).1
act (now, i, Act.releases d) t = release_driver i d t
act (now, i, Act.host_restarts on_host) t = (release_drivers_on_host on_host t).1

pub run_acts : List (ℕ × String × Act) → Table → Table
unfolding act
run_acts [] t = t
run_acts (a ∷ acts) t = run_acts acts (act a t)

abbrev pub Since : ℕ → Option ℕ → Type 0
Since beat none = ⊥
Since beat (some last) = beat ≤ last

-- The row of an execution that driver `d` holds, with a heartbeat not before `beat`.
pub record IsHeld (d : String) (beat : ℕ) (e : Execution) : Type 0 where
  pub owned : e.driver_id ≡ some d
  pub recent : Since beat e.driver_heartbeat_at

pub record Holds (eid d : String) (beat : ℕ) (t : Table) : Type 0 where
  pub keyed : IsKeyed key t
  pub row : Execution
  pub found : find key eid t ≡ some row
  pub held : IsHeld d beat row

-- Acts that come while the lease of `d`, last renewed at `beat`, is fresh: another driver claims no
-- later than one lease after it; `d` renews and does not release; and no manager restarts that
-- takes `d` for one of its own dead drivers.
abbrev pub IsTimely : String → ℕ → ℕ × String × Act → Type 0
IsTimely d beat (now, i, Act.claims o lease) = (now ≤ beat + lease) × (o ≡ d → beat ≤ now)
IsTimely d beat (now, i, Act.beats o) = o ≡ d → beat ≤ now
IsTimely d beat (now, i, Act.releases o) = o ≢ d
IsTimely d beat (now, i, Act.host_restarts on_host) = on_host d ≡ false

module _ (eid d : String) (beat : ℕ) where
  update-Holds :
      (q : Execution → Bool) (f : Execution → Execution)
      → ((e : Execution) → key (f e) ≡ key e)
      → ((e : Execution) → IsHeld d beat e → IsHeld d beat (update_row q f e))
      → (t : Table) → Holds eid d beat t
      → Holds eid d beat (update q f t)
  update-Holds q f same keep t h = record {
    keyed = update-IsKeyed key q f same t h.keyed;
    row = update_row q f h.row;
    found = find-update key q f same eid t ∙ ap (Option.map (update_row q f)) h.found;
    held = keep h.row h.held;
  }

  claims-IsHeld :
      (now : ℕ) (i o : String) (lease : ℕ)
      → now ≤ beat + lease
      → (o ≡ d → beat ≤ now)
      → (e : Execution) → IsHeld d beat e
      → IsHeld d beat (update_row (at_key key i (may_drive now lease o)) (take_lease now o) e)
  claims-IsHeld now i o lease soon own e h = ground (arith, string_eq.decides d o)

  beats-IsHeld :
      (now : ℕ) (i o : String)
      → (o ≡ d → beat ≤ now)
      → (e : Execution) → IsHeld d beat e
      → IsHeld d beat (
          update_row (at_key key i (drives o)) (λ x. record x { driver_heartbeat_at = some now }) e)
  beats-IsHeld now i o own e h = ground (arith, string_eq.decides d o)

  releases-IsHeld :
      (i o : String)
      → o ≢ d
      → (e : Execution) → IsHeld d beat e
      → IsHeld d beat (update_row (at_key key i (drives o)) drop_lease e)
  releases-IsHeld i o other e h = ground (arith, string_eq.decides d o)

  host_restarts-IsHeld :
      (on_host : String → Bool)
      → on_host d ≡ false
      → (e : Execution) → IsHeld d beat e
      → IsHeld d beat (update_row (is_on_host on_host) drop_lease e)
  host_restarts-IsHeld on_host other e h = ground arith

  act-Holds :
      (a : ℕ × String × Act) (t : Table)
      → IsTimely d beat a
      → Holds eid d beat t
      → Holds eid d beat (act a t)
  unfolding act
  act-Holds (now, i, claims o lease) t h held =
      update-Holds _ _ (λ e. refl) (claims-IsHeld now i o lease h.0 h.1) t held
  act-Holds (now, i, beats o) t h held =
      update-Holds _ _ (λ e. refl) (beats-IsHeld now i o h) t held
  act-Holds (now, i, releases o) t h held =
      update-Holds _ _ (λ e. refl) (releases-IsHeld i o h) t held
  act-Holds (now, i, host_restarts on_host) t h held =
      update-Holds _ _ (λ e. refl) (host_restarts-IsHeld on_host h) t held

  run_acts-Holds :
      (acts : List (ℕ × String × Act)) (t : Table)
      → All (IsTimely d beat) acts
      → Holds eid d beat t
      → Holds eid d beat (run_acts acts t)
  unfolding run_acts
  run_acts-Holds [] t hs held = held
  run_acts-Holds (a ∷ acts) t hs held = run_acts-Holds acts (act a t) hs.1 (act-Holds a t hs.0 held)

-- The next heartbeat of a driver succeeds exactly when it is the one that holds the execution.
heartbeat-Holds :
    (eid d o : String) (beat now : ℕ) (t : Table)
    → Holds eid d beat t
    → (heartbeat_driver now eid o t).0 ≡ (d == o)
unfolding heartbeat_driver
heartbeat-Holds eid d o beat now t h =
    rw (count_keyed key eid (drives o) t h.keyed, h.found) (rw h.held.owned (ground arith))

one_row : (b : Bool) → ◌==◌ {A = ℕ} (if b then 1 else 0) 1 ≡ true → b ≡ true
one_row b h = ground arith

claim_within :
    (eid d o : String) (beat now lease : ℕ) (t : Table)
    → now ≤ beat + lease
    → Holds eid d beat t
    → (claim_driver now eid o lease t).0 ≡ (d == o)
unfolding claim_driver
claim_within eid d o beat now lease t soon h =
    rw (count_keyed key eid (may_drive now lease o) t h.keyed, h.found)
      (ground (arith, h.held.owned, h.held.recent))

-- While the lease of a driver is fresh no other loop drives its execution: after any acts in that
-- time, of it and of others, on this execution and on others, a heartbeat, and a claim within the
-- lease, succeed for that driver and for no other.
pub lease_exclusive :
    (eid d o : String) (beat now lease : ℕ) (acts : List (ℕ × String × Act)) (t : Table)
    → All (IsTimely d beat) acts
    → now ≤ beat + lease
    → Holds eid d beat t
    → let u = run_acts acts t in
      ((heartbeat_driver now eid o u).0 ≡ (d == o))
      × ((claim_driver now eid o lease u).0 ≡ (d == o))
lease_exclusive eid d o beat now lease acts t hs soon held =
    let after = run_acts-Holds eid d beat acts t hs held in
    (
      heartbeat-Holds eid d o beat now (run_acts acts t) after,
      claim_within eid d o beat now lease (run_acts acts t) soon after,
    )

-- A claim that succeeds makes its driver the holder from then on, whoever held the execution
-- before, so that by `lease_exclusive` the next heartbeat of a loop that it replaced fails.
pub claim-Holds :
    (eid o : String) (now lease : ℕ) (t : Table) (e : Execution)
    → IsKeyed key t
    → find key eid t ≡ some e
    → (claim_driver now eid o lease t).0 ≡ true
    → Holds eid o now (claim_driver now eid o lease t).1
claim-Holds eid o now lease t e keyed found ok = record {
  keyed =
      unfold claim_driver in
      update-IsKeyed key (at_key key eid (may_drive now lease o)) (take_lease now o) (λ x. refl) t
        keyed;
  row = take_lease now o e;
  found =
      unfold claim_driver in
      (find-update_self key (may_drive now lease o) (take_lease now o) (λ x. refl) eid t
        ∙ ap (Option.map (update_row (may_drive now lease o) (take_lease now o))) found
        ∙ taken);
  held = record { owned = refl; recent = le_refl now };
}
  where
    allowed : may_drive now lease o e ≡ true
    allowed =
        unfold claim_driver in
        one_row (may_drive now lease o e)
          (rw (count_keyed key eid (may_drive now lease o) t keyed, found) at ok)

    taken :
        some (update_row (may_drive now lease o) (take_lease now o) e) ≡ some (take_lease now o e)
    taken = rw allowed
