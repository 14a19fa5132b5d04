-- ===== src/Command/Start/Issuer.antt =====
-- When the start of the program goes past the wait for the identity provider.
use cupboard.Prelude.{
  ◌≢◌, ◌↔◌, ◌⊎◌, ℕ, ◌<◌, ◌++◌, Bool, true, List, Option, none, some, Result, ok, err, ◌≡◌, refl,
  arith, Bool-cases, inl, inr,
}
use cupboard.Text.{Text, codes, ◌==◌, eq_iff}
use cupboard.Auth.Service.{well_known, trim_right_slash}
use cupboard.Command.Probe.{probe, probe_iff}
use cupboard.Command.Start.{Machine, Runnable, Exit, wait_for_issuer, probing}

-- Some request, of a number of them, to the well-known endpoint of an issuer is answered with 200.
abbrev pub IsReached : Machine → ℕ → Text → Type 0
IsReached m rounds issuer_url =
    (k : ℕ) × ((k < rounds)
      × (m.probe_answers (trim_right_slash issuer_url ++ codes "/.well-known/openid-configuration")
            k
          ≡ ok 200))

abbrev waited : List Runnable → Option ℕ → Result Exit (List Runnable)
waited added found = elim found [ none ↦ err probing | some n ↦ ok added ]

waited_iff :
    (found : Option ℕ) (added : List Runnable)
    → (waited added found ≡ ok added) ↔ ((k : ℕ) × (found ≡ some k))
waited_iff none added = (λ h. absurd (ground arith), λ (k, e). absurd (ground arith))
waited_iff (some k) added = (λ h. (k, refl), λ h. refl)

-- The start goes past the wait with what it has added exactly if no issuer is configured, the probe
-- is skipped, or one of the requests to the well-known endpoint is answered with the status 200.
pub wait_for_issuer_iff :
    (m : Machine) (rounds : ℕ) (skip : Bool) (issuer_url : Text) (added : List Runnable)
    → (wait_for_issuer m rounds skip issuer_url added ≡ ok added)
      ↔ ((issuer_url ≡ codes "") ⊎ ((skip ≡ true) ⊎ IsReached m rounds issuer_url))
unfolding wait_for_issuer well_known
wait_for_issuer_iff m rounds skip issuer_url added = elim (Bool-cases (issuer_url == codes "")) [
  | inl e ↦ rw (wait_for_issuer, e) (λ h. inl ((eq_iff issuer_url (codes "")).0 e), λ h. refl)
  | inr e ↦ elim (Bool-cases skip) [
    | inl k ↦ rw (wait_for_issuer, e, k) (λ h. inr (inl refl), λ h. refl)
    | inr k ↦
        let answers =
          m.probe_answers
            (trim_right_slash issuer_url ++ codes "/.well-known/openid-configuration") in
        let ends : (waited added (probe rounds 0 answers) ≡ ok added)
            ↔ ((n : ℕ) × (probe rounds 0 answers ≡ some n)) =
          waited_iff (probe rounds 0 answers) added in
        let named : issuer_url ≢ codes "" =
          λ z. absurd (ground (arith, eq_iff issuer_url (codes ""))) in
        rw (wait_for_issuer, e, k)
          (
            λ h. inr (inr ((probe_iff rounds answers).0 (ends.0 h))),
            λ h. elim h [
              | inl z ↦ absurd (named z)
              | inr later ↦ elim later [
                | inl z ↦ absurd (ground arith)
                | inr reached ↦ ends.1 ((probe_iff rounds answers).1 reached)
              ]
            ],
          )
  ]
]
