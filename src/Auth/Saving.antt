-- ===== src/Auth/Saving.antt =====
-- auth/auth.go: `casUpdatePrincipal`, which changes a principal and saves it. The store, the saving
-- with its compare-and-swap, and the reloading are parameters. Principals are users or roles, so that
-- the case of neither is left out.
use sync_gateway.Prelude.{ℕ, zero, suc, ◌≡◌, refl, ap, ◌∙◌, Option, none, some, ◌⊎◌, inl, inr}

pub data Change {ℓ ℓ'} (P : Type ℓ) (E : Type ℓ') : Type (ℓ ⊔ ℓ') where
  update_cancelled : Change P E
  change_failed : E → Change P E
  changed : P → Change P E

pub data SaveResult {ℓ'} (E : Type ℓ') : Type ℓ' where
  saved : SaveResult E
  cas_mismatch : SaveResult E
  save_failed : E → SaveResult E

pub data Reloaded {ℓ ℓ'} (P : Type ℓ) (E : Type ℓ') : Type (ℓ ⊔ ℓ') where
  reload_failed : E → Reloaded P E
  reloaded : Option P → Reloaded P E

abbrev pub principal_update_max_cas_retries : ℕ
principal_update_max_cas_retries = 20

module _ (S P E : Type 0) (save : P → S → SaveResult E × S) (get : S → Reloaded P E) where
  -- The error returned, nil being `none`, and the store. The loop's own `err` shadows the one that is
  -- returned after the last attempt, and the one that a failed save returns is the callback's.
  unfoldable pub cas_update_loop : (Option P → Change P E) → ℕ → Option P → S → Option E × S
  cas_update_loop callback zero p s = (none, s)
  cas_update_loop callback (suc n) p s = elim (callback p) as (λ c. Option E × S) [
    | update_cancelled ↦ (none, s)
    | change_failed e ↦ (some e, s)
    | changed p' ↦ elim ((save p' s).0) as (λ r. Option E × S) [
      | saved ↦ (none, (save p' s).1)
      | save_failed e ↦ (none, (save p' s).1)
      | cas_mismatch ↦ elim (get (save p' s).1) as (λ r. Option E × S) [
        | reload_failed e ↦ (some e, (save p' s).1)
        | reloaded p'' ↦ cas_update_loop callback n p'' (save p' s).1
      ]
    ]
  ]

  unfoldable pub cas_update_principal : (Option P → Change P E) → Option P → S → Option E × S
  cas_update_principal callback p s = cas_update_loop callback principal_update_max_cas_retries p s

  Change-cases :
      (c : Change P E)
      → (c ≡ update_cancelled) ⊎ ((e : E) × (c ≡ change_failed e)) ⊎ ((p : P) × (c ≡ changed p))
  Change-cases update_cancelled = inl refl
  Change-cases (change_failed e) = inr (inl (e, refl))
  Change-cases (changed p) = inr (inr (p, refl))

  SaveResult-cases :
      (r : SaveResult E) → (r ≡ saved) ⊎ (r ≡ cas_mismatch) ⊎ ((e : E) × (r ≡ save_failed e))
  SaveResult-cases saved = inl refl
  SaveResult-cases cas_mismatch = inr (inl refl)
  SaveResult-cases (save_failed e) = inr (inr (e, refl))

  Reloaded-cases :
      (r : Reloaded P E) → ((e : E) × (r ≡ reload_failed e)) ⊎ ((p : Option P) × (r ≡ reloaded p))
  Reloaded-cases (reload_failed e) = inl (e, refl)
  Reloaded-cases (reloaded p) = inr (p, refl)

  no_error : (e : E) → none ≡ some e → ⊥
  no_error e h = cc

  same_error : (d e : E) → some d ≡ some e → d ≡ e
  same_error d e h = cc

  cas_update_loop_lem :
      (callback : Option P → Change P E) (n : ℕ) (p : Option P) (s : S) (e : E)
      → (cas_update_loop callback n p s).0 ≡ some e
      → ((q : Option P) × (callback q ≡ change_failed e)) ⊎ ((t : S) × (get t ≡ reload_failed e))
  unfolding cas_update_loop
  cas_update_loop_lem callback zero p s e h = absurd (no_error e h)
  cas_update_loop_lem callback (suc n) p s e h =
      let rest = cas_update_loop_lem callback n in
      elim (Change-cases (callback p)) [
        | inl c ↦ absurd (no_error e (rw (cas_update_loop, c) at h))
        | inr (inl (d, c)) ↦
            inl (p, c ∙ ap (λ z. change_failed z) (same_error d e (rw (cas_update_loop, c) at h)))
        | inr (inr (p', c)) ↦ elim (SaveResult-cases (save p' s).0) [
          | inl r ↦ absurd (no_error e (rw (cas_update_loop, c, r) at h))
          | inr (inr (d, r)) ↦ absurd (no_error e (rw (cas_update_loop, c, r) at h))
          | inr (inl r) ↦ elim (Reloaded-cases (get (save p' s).1)) [
            | inl (d, g) ↦ inr (
              (save p' s).1,
              g ∙ ap (λ z. reload_failed z) (same_error d e (rw (cas_update_loop, c, r, g) at h)),
            )
            | inr (q, g) ↦ rest q (save p' s).1 e (rw (cas_update_loop, c, r, g) at h)
          ]
        ]
      ]

  -- An error that `casUpdatePrincipal` returns is one of the callback or of a reload. So it returns
  -- none of a failed save, whose error is lost, nor one when all attempts have failed.
  pub cas_update_principal_lem :
      (callback : Option P → Change P E) (p : Option P) (s : S) (e : E)
      → (cas_update_principal callback p s).0 ≡ some e
      → ((q : Option P) × (callback q ≡ change_failed e)) ⊎ ((t : S) × (get t ≡ reload_failed e))
  unfolding cas_update_principal
  cas_update_principal_lem callback p s e h =
      cas_update_loop_lem callback principal_update_max_cas_retries p s e h
