-- ===== src/Protocol/Computes.antt =====
-- What it means that a protocol computes a value in shared form.
use raw_ipa.Prelude.{◌≡◌, sym, subst}
use raw_ipa.Algebra.{Field}
use raw_ipa.SecretSharing.Sharing.{Sharing, Shares}
use raw_ipa.Protocol.Exchange.{Outcome, done, ◌>>=◌}

module _ {ℓ} {A : Type ℓ} ⦃f : Field A⦄ where
  -- All three helpers return, and hold a replicated sharing of `v`.
  abbrev pub Computes : Outcome (Sharing A) → A → Type ℓ
  Computes out v = (s : Sharing A) × (out ≡ done s) × Shares s v

  -- Protocols in sequence.
  pub >>=-Computes {κ μ} :
      {B : Type κ} (P : Outcome B → Type μ) (m : Outcome (Sharing A)) (k : Sharing A → Outcome B)
      {v : A}
      → Computes m v
      → ((s : Sharing A) → Shares s v → P (k s))
      → P (m >>= k)
  >>=-Computes P m k (s, e, h) next = subst (λ o. P (o >>= k)) (sym e) (next s h)
