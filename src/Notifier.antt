-- ===== src/Notifier.antt =====
-- web/notifier.go: the loop that tells WebSocket clients of a change, as a step relation. A
-- connection is a number; which writes fail is given with the step.
pub mod Laws
pub mod Origin
use cupboard.Prelude.{
  ◌+◌, ℕ, Bool, true, false, not, ◌&&◌, List, [], ◌∷◌, ◌++◌, ◌≡◌, if◌then◌else◌, ◌==◌ as nat_eq,
}
use cupboard.Prelude.Lists.{keep}

-- A `DashboardNotifier`, with what its loop holds.
pub record Notifier : Type 0 where
  pub clients : List ℕ
  -- an element waits in the channel `notify`, which has room for one
  pub signal : Bool
  pub pending : Bool
  -- `Start` has not returned
  pub running : Bool

-- `NewDashboardNotifier`, and the start of `Start`
abbrev pub new_notifier : Notifier
new_notifier = record { clients = []; signal = false; pending = false; running = true }

-- `Notify`: a full channel stays full.
unfoldable pub notify : Notifier → Notifier
notify n = record n { signal = true }

-- `unregister`
unfoldable pub unregister : ℕ → Notifier → Notifier
unregister conn n = record n { clients = keep (λ c. not (nat_eq c conn)) n.clients }

-- `register`: a set holds a connection once.
unfoldable pub register : ℕ → Notifier → Notifier
register conn n = record n { clients = conn ∷ keep (λ c. not (nat_eq c conn)) n.clients }

-- The loop of `broadcastPing` and of `broadcastWSPing` over the snapshot.
unfoldable pub broadcast_to : (ℕ → Bool) → List ℕ → Notifier → Notifier
broadcast_to fails [] n = n
broadcast_to fails (conn ∷ snapshot) n =
    broadcast_to fails snapshot (if fails conn then unregister conn n else n)

unfoldable pub broadcast : (ℕ → Bool) → Notifier → Notifier
broadcast fails n = broadcast_to fails n.clients n

is_empty : List ℕ → Bool
is_empty [] = true
is_empty (c ∷ cs) = false

-- Whether a tick of the limiter sends "ping".
unfoldable pub broadcasts_on_tick : Notifier → Bool
unfolding is_empty
broadcasts_on_tick n = n.pending && not (is_empty n.clients)

-- The `case <-limiter.C`.
unfoldable pub tick : (ℕ → Bool) → Notifier → Notifier
tick fails n =
    let idle = record n { pending = false } in
    if broadcasts_on_tick n then broadcast fails idle else idle

-- `closeAll`, and the return of `Start`.
unfoldable pub cancel : Notifier → Notifier
cancel n = record n { clients = []; running = false }

-- A step of the loop, or of a caller, and how often it is one of `Notify` and sends "ping".
pub data Step : Notifier → ℕ → ℕ → Notifier → Type 0 where
  notifies : (n : Notifier) → Step n 1 0 (notify n)
  receives :
      (n : Notifier)
      → n.running ≡ true
      → n.signal ≡ true
      → Step n 0 0 (record n { signal = false; pending = true })
  ticks :
      (fails : ℕ → Bool) (n : Notifier)
      → n.running ≡ true
      → Step n 0 (if broadcasts_on_tick n then 1 else 0) (tick fails n)
  pings : (fails : ℕ → Bool) (n : Notifier) → n.running ≡ true → Step n 0 0 (broadcast fails n)
  registers : (conn : ℕ) (n : Notifier) → Step n 0 0 (register conn n)
  unregisters : (conn : ℕ) (n : Notifier) → Step n 0 0 (unregister conn n)
  cancels : (n : Notifier) → n.running ≡ true → Step n 0 0 (cancel n)

-- A run, with the calls of `Notify` and the broadcasts in it.
pub data Run : Notifier → ℕ → ℕ → Notifier → Type 0 where
  stays : (n : Notifier) → Run n 0 0 n
  goes : {l m n : Notifier} {a b c d : ℕ} → Step l a b m → Run m c d n → Run l (a + c) (b + d) n
