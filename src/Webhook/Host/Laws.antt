-- ===== src/Webhook/Host/Laws.antt =====
-- What `ExtractHostFromTraefikMatch` extracts.
use cupboard.Prelude.{
  ℕ, zero, suc, ◌+◌, [], ◌∷◌, ◌++◌, some, ◌≡◌, ◌⊎◌, inl, inr, refl, sym, ◌∙◌, ap, arith,
  Option-cases, append_assoc,
}
use cupboard.Prelude.Lists.{length, take, drop}
use cupboard.Text.{Text, codes}
use cupboard.Text.Trim.{trim_space}
use cupboard.Text.Search.{index, index_sound}
use cupboard.Webhook.Host.{extract_host_from_traefik_match, host_open, host_close}

drop-nil : (n : ℕ) → drop {A = ℕ} n [] ≡ []
drop-nil zero = refl
drop-nil (suc n) = refl

drop-drop : (i j : ℕ) (s : Text) → drop j (drop i s) ≡ drop (i + j) s
drop-drop zero j s = let e : j ≡ 0 + j = omega arith in ap (λ n. drop n s) e
drop-drop (suc i) j [] = drop-nil j ∙ sym (drop-nil (suc i + j))
drop-drop (suc i) j (c ∷ s) =
    let e : suc (i + j) ≡ suc i + j = omega arith in drop-drop i j s ∙ ap (λ n. drop n (c ∷ s)) e

-- A rule holds a host, with space around, between "Host(`" and "`)".
abbrev pub HoldsHost : Text → Text → Type 0
HoldsHost rule result =
    (before : Text) × ((host : Text) × ((after : Text) × ((rule
            ≡ before ++ (host_open ++ (host ++ (host_close ++ after))))
          × (result ≡ trim_space host))))

split_at :
    (rule : Text) (i j : ℕ)
    → index rule host_open ≡ some i
    → index (drop (i + length host_open) rule) host_close ≡ some j
    → HoldsHost rule (trim_space (take j (drop (i + length host_open) rule)))
split_at rule i j e f =
    let rest = drop (i + length host_open) rule in
    let after = drop (length host_close) (drop j rest) in
    let inner : take j rest ++ (host_close ++ after) ≡ rest =
      sym (append_assoc (take j rest) host_close after) ∙ index_sound rest host_close j f in
    let outer : take i rule ++ (host_open ++ rest) ≡ rule =
      ap (λ s. take i rule ++ (host_open ++ s)) (sym (drop-drop i (length host_open) rule))
      ∙ sym (append_assoc (take i rule) host_open (drop (length host_open) (drop i rule)))
      ∙ index_sound rule host_open i e in
    (
      take i rule,
      (take j rest, (after, (sym (ap (λ s. take i rule ++ (host_open ++ s)) inner ∙ outer), refl))),
    )

-- The result is empty, or the rule holds it, with space around, between "Host(`" and "`)".
extract_host_from_traefik_match-HoldsHost :
    (rule : Text)
    → (extract_host_from_traefik_match rule ≡ codes "")
      ⊎ HoldsHost rule (extract_host_from_traefik_match rule)
unfolding extract_host_from_traefik_match
extract_host_from_traefik_match-HoldsHost rule = elim (Option-cases (index rule host_open)) [
  | inl e ↦ inl (rw (extract_host_from_traefik_match, e) refl)
  | inr (i, e) ↦ elim (Option-cases (index (drop (i + length host_open) rule) host_close)) [
    | inl f ↦ inl (rw (extract_host_from_traefik_match, e, f) refl)
    | inr (j, f) ↦ inr (rw (extract_host_from_traefik_match, e, f) (split_at rule i j e f))
  ]
]
