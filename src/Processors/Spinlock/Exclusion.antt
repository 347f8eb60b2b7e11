-- ===== src/Processors/Spinlock/Exclusion.antt =====
-- Mutual exclusion, and progress.
use potat_os.Prelude.{ℕ, ◌<◌, ◌≡◌, refl, ◌≢◌, sym, ◌∙◌, ap, subst, arith, Bool, true, false}
use potat_os.Processors.Spinlock.{
  Pc, outside, spinning, inside, System, update, Move, call, take, release_unheld, Step, pick,
  Reach, later,
}

-- The lock is held exactly by the one processor inside.
pub record Inv (n : ℕ) (s : System) : Type 0 where
  pub held : s.lock ≡ true → (i : ℕ) × (i < n) × (s.pc i ≡ inside)
  pub free : s.lock ≡ false → (i : ℕ) → s.pc i ≢ inside
  pub one : (i j : ℕ) → s.pc i ≡ inside → s.pc j ≡ inside → i ≡ j

is_inside : Pc → Bool
is_inside inside = true
is_inside outside = false
is_inside spinning = false

outside_ne : outside ≢ inside
unfolding is_inside
outside_ne e = ground (arith, ap is_inside e)

update_self : (pc : ℕ → Pc) (i j : ℕ) (p : Pc) → j ≡ i → update pc i p j ≡ p
update_self pc i j p q = ground (arith, q)

update-ne : (pc : ℕ → Pc) (i j : ℕ) (p : Pc) → j ≢ i → update pc i p j ≡ pc j
update-ne pc i j p q = ground (arith, q)

-- A processor in the loop takes a free lock.
can_take :
    {n : ℕ} (s : System) (i : ℕ)
    → i < n
    → s.lock ≡ false
    → s.pc i ≡ spinning
    → Step n s (record { lock = true; pc = update s.pc i inside })
can_take s i lt free at = pick i lt (
    subst (λ p. Move s.lock p true inside) (sym at)
      (subst (λ b. Move b spinning true inside) (sym free) take))

-- When a processor that has not taken the lock releases it while another is behind spinlock_aquire,
-- it can come through itself, and both are there.
pub release_unheld-inside :
    {n : ℕ} {s : System} (i k : ℕ)
    → Reach n s
    → s.pc i ≡ inside
    → s.pc k ≡ outside
    → k < n
    → (t : System) × Reach n t × (t.pc i ≡ inside) × (t.pc k ≡ inside) × (i ≢ k)
release_unheld-inside {n} {s} i k r at out lt =
    let apart : i ≢ k = λ q. outside_ne (sym out ∙ ap s.pc (sym q) ∙ at) in
    let s1 : System = record { lock = false; pc = update s.pc k outside } in
    let s2 : System = record { lock = false; pc = update s1.pc k spinning } in
    let s3 : System = record { lock = true; pc = update s2.pc k inside } in
    let first : Step n s s1 =
      pick k lt (subst (λ p. Move s.lock p false outside) (sym out) (release_unheld s.lock)) in
    let second : Step n s1 s2 = pick k lt (
      subst (λ p. Move false p false spinning) (sym (update_self s.pc k k outside refl))
        (call false)) in
    let third : Step n s2 s3 = can_take s2 k lt refl (update_self s1.pc k k spinning refl) in
    (
      s3,
      later (later (later r first) second) third,
      update-ne s2.pc k i inside apart
          ∙ update-ne s1.pc k i spinning apart
          ∙ update-ne s.pc k i outside apart
          ∙ at,
      update_self s2.pc k k inside refl,
      apart,
    )
