-- ===== src/Notifier/Laws.antt =====
-- Bursts of changes are coalesced, and none is lost.
use cupboard.Prelude.{
  ℕ, Bool, true, false, ◌+◌, ◌≤◌, List, [], ◌∷◌, ◌≡◌, refl, arith, if◌then◌else◌, Bool-cases, inl,
  inr,
}
use cupboard.Notifier.{
  Notifier, new_notifier, Step, Run, notify, register, unregister, broadcast, broadcast_to,
  broadcasts_on_tick, tick, cancel,
}

-- The notifications that a broadcast is still owed for.
abbrev owed : Notifier → ℕ
owed n = (if n.signal then 1 else 0) + (if n.pending then 1 else 0)

broadcast_to-owed :
    (fails : ℕ → Bool) (cs : List ℕ) (n : Notifier) → owed (broadcast_to fails cs n) ≡ owed n
unfolding broadcast_to unregister
broadcast_to-owed fails [] n = refl
broadcast_to-owed fails (c ∷ cs) n = elim (Bool-cases (fails c)) [
  | inl e ↦ rw (broadcast_to, e) (broadcast_to-owed fails cs (unregister c n))
  | inr e ↦ rw (broadcast_to, e) (broadcast_to-owed fails cs n)
]

tick-owed :
    (fails : ℕ → Bool) (n : Notifier)
    → (if broadcasts_on_tick n then 1 else 0) + owed (tick fails n) ≤ 0 + owed n
unfolding tick broadcast broadcasts_on_tick
tick-owed fails n = ground (arith, broadcast_to-owed fails n.clients (record n { pending = false }))

Step-owed : {m n : Notifier} {a b : ℕ} → Step m a b n → b + owed n ≤ a + owed m
unfolding notify register unregister broadcast cancel
Step-owed (Step.notifies n) = ground arith
Step-owed (Step.receives n r s) = ground arith
Step-owed (Step.ticks fails n r) = tick-owed fails n
Step-owed (Step.pings fails n r) = ground (arith, broadcast_to-owed fails n.clients n)
Step-owed (Step.registers conn n) = ground arith
Step-owed (Step.unregisters conn n) = ground arith
Step-owed (Step.cancels n r) = ground arith

Run-owed : {m n : Notifier} {a b : ℕ} → Run m a b n → b + owed n ≤ a + owed m
Run-owed (Run.stays n) = ground arith
Run-owed (Run.goes s r) = ground (arith, Step-owed s, Run-owed r)

-- From the start on, "ping" is broadcast at most as often as `Notify` is called.
pub Run-broadcasts :
    (notified broadcasts : ℕ) (n : Notifier)
    → Run new_notifier notified broadcasts n
    → broadcasts ≤ notified
Run-broadcasts notified broadcasts n r = ground (arith, Run-owed r)

-- After a call of `Notify`, the loop takes the signal, and its next tick broadcasts if there is a
-- client.
pub notify-broadcasts :
    (conn : ℕ) (clients : List ℕ) (n : Notifier)
    → n.clients ≡ conn ∷ clients
    → broadcasts_on_tick (record (notify n) { signal = false; pending = true }) ≡ true
unfolding notify broadcasts_on_tick
notify-broadcasts conn clients n e = rw e refl
