-- ===== src/Command/Probe.antt =====
-- The loop that waits for the identity provider before the program starts.
use cupboard.Prelude.{
  subst, ◌↔◌, ℕ, zero, suc, ◌+◌, ◌<◌, Bool, true, false, Option, none, some, Result, ok, err, ◌≡◌,
  refl, arith, if◌then◌else◌, ◌==◌ as nat_eq, Bool-cases, inl, inr,
}
use cupboard.Text.{Text}

-- What each request gets: an error, or a status.
abbrev pub Answers : Type 0
Answers = ℕ → Result Text ℕ

-- `probeErr == nil && resp.StatusCode == http.StatusOK`
unfoldable pub is_ready : Result Text ℕ → Bool
is_ready (err e) = false
is_ready (ok status) = nat_eq status 200

-- The loop, from a request on, for at most some rounds: the number of the request that ends it.
unfoldable pub probe : ℕ → ℕ → Answers → Option ℕ
unfolding is_ready
probe zero n answers = none
probe (suc rounds) n answers =
    let rest = probe rounds (n + 1) answers in if is_ready (answers n) then some n else rest

-- The loop ends if one of its requests is ready.
probe_complete :
    (rounds n m : ℕ) (answers : Answers)
    → m < rounds
    → is_ready (answers (n + m)) ≡ true
    → (k : ℕ) × (probe rounds n answers ≡ some k)
unfolding probe
probe_complete zero n m answers l e = absurd (omega arith)
probe_complete (suc rounds) n zero answers l e =
    let now : is_ready (answers n) ≡ true = ground arith in (n, rw (probe, now) refl)
probe_complete (suc rounds) n (suc m) answers l e = elim (Bool-cases (is_ready (answers n))) [
  | inl r ↦ (n, rw (probe, r) refl)
  | inr r ↦
      let same : n + 1 + m ≡ n + suc m = omega arith in
      let (k, p) : (k : ℕ) × (probe rounds (n + 1) answers ≡ some k) =
        probe_complete rounds (n + 1) m answers (omega arith) (rw same e) in
      (k, rw (probe, r) p)
]

-- `is_ready` reads the status 200.
is_ready_iff : (answer : Result Text ℕ) → (is_ready answer ≡ true) ↔ (answer ≡ ok 200)
unfolding is_ready
is_ready_iff (err e) = (λ h. cc h, λ h. absurd (ground arith))
is_ready_iff (ok status) = (λ h. ground arith, λ h. ground arith)

-- A request that ends the loop was answered with the status 200.
probe_sound :
    (rounds n k : ℕ) (answers : Answers)
    → probe rounds n answers ≡ some k
    → (answers k ≡ ok 200) × (k < n + rounds)
unfolding probe
probe_sound zero n k answers h = absurd (ground arith)
probe_sound (suc rounds) n k answers h = elim (Bool-cases (is_ready (answers n))) [
  | inl r ↦
      let same : n ≡ k = ground arith in
      (subst (λ j. answers j ≡ ok 200) same ((is_ready_iff (answers n)).0 r), omega arith)
  | inr r ↦
      let later : (answers k ≡ ok 200) × (k < n + 1 + rounds) =
        probe_sound rounds (n + 1) k answers (rw (probe, r) at h) in
      (later.0, omega (arith, later.1))
]

-- The loop ends within some rounds exactly if one of that many requests is answered with the status
-- 200.
pub probe_iff :
    (rounds : ℕ) (answers : Answers)
    → ((k : ℕ) × (probe rounds 0 answers ≡ some k))
      ↔ ((k : ℕ) × ((k < rounds) × (answers k ≡ ok 200)))
probe_iff rounds answers = (
  λ (k, e).
      let found : (answers k ≡ ok 200) × (k < 0 + rounds) = probe_sound rounds 0 k answers e in
      (k, (omega (arith, found.1), found.0)),
  λ (k, (l, e)).
      let same : 0 + k ≡ k = omega arith in
      probe_complete rounds 0 k answers l (rw same ((is_ready_iff (answers k)).1 e)),
)
