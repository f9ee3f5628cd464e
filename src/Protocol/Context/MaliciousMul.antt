-- ===== src/Protocol/Context/MaliciousMul.antt =====
-- src/protocol/basics/mul/malicious.rs: the multiplication of values that carry `r` times themselves.
use raw_ipa.Prelude.{◌≡◌, refl, sym, ap, ◌∙◌, subst, Bool, true, false, ◌&&◌, [], ◌∷◌}
use raw_ipa.Algebra.{Field, IsRing, 𝟘, ◌⊖◌, ◌⊗◌}
use raw_ipa.Algebra.Solver.{Expr_field, var, solve, values, normalise}
use raw_ipa.Helpers.Role.{Three, at, tabulate, map_three, zip_three}
use raw_ipa.SecretSharing.Replicated.{new}
use raw_ipa.SecretSharing.Malicious.{MaliciousShare, x_of, rx_of, IsExtension, Authentic}
use raw_ipa.SecretSharing.Sharing.{Sharing, IsReplicated, Shares}
use raw_ipa.Protocol.Exchange.{Outcome, done, ◌>>=◌}
use raw_ipa.Protocol.Basics.ZeroPositions.{ZeroPositions, pvvv, MultiplyZeroPositions, is_pointless}
use raw_ipa.Protocol.Basics.Mul.{multiply_all}
use raw_ipa.Protocol.Basics.Mul.Sparse.{Conforms}
use raw_ipa.Protocol.Basics.Mul.Debug.{multiply-Computes}
use raw_ipa.Protocol.Context.Validator.{AccumulatorState, accumulate_macs}
use raw_ipa.Protocol.Basics.SecureMul.{pvvv-Conforms}
use raw_ipa.Protocol.Context.Macs.{induced, induced-Shares}

module _ {ℓ} {A E : Type ℓ} ⦃f : Field A⦄ ⦃g : Field E⦄ (to_extended : A → E) where
  -- `b_induced_share` at each helper.
  abbrev pub b_induced : Three (MaliciousShare A E) → Sharing E
  b_induced b = map_three (λ t. new (to_extended t.x.left) (to_extended t.x.right)) b

  -- `multiply` at the three helpers: the two multiplications run side by side, each with its own
  -- randomness, and the result goes into the codes.
  unfoldable pub malicious_multiply :
      Discrete A
      → Discrete E
      → Bool
      → MultiplyZeroPositions
      → Sharing A
      → Sharing E
      → Sharing E
      → Three (MaliciousShare A E)
      → Three (MaliciousShare A E)
      → Three (AccumulatorState E)
      → Outcome (Three (MaliciousShare A E) × Three (AccumulatorState E))
  malicious_multiply decA decE debug zeros_at prss duplicate_prss random_constant a b states = do
    ab ← multiply_all decA debug zeros_at (x_of a) (x_of b) prss
    rab ← multiply_all decE debug (pvvv, zeros_at.1) (rx_of a) (b_induced b) duplicate_prss
    let malicious_ab = zip_three (λ x rx. record { x = x; rx = rx }) ab rab
    done (
      malicious_ab,
      tabulate (λ role.
          accumulate_macs to_extended (at random_constant role) (at malicious_ab role)
            (at states role)),
    )

pvvv_needs_work : (debug : Bool) (z : ZeroPositions) → (debug && is_pointless pvvv z) ≡ false
unfolding is_pointless
pvvv_needs_work false pvvv = refl
pvvv_needs_work true pvvv = refl
pvvv_needs_work _ _ = refl

module _ {ℓ} {A E : Type ℓ} ⦃f : Field A⦄ ⦃g : Field E⦄ (ra : IsRing A) (re : IsRing E)
    {to_extended : A → E} (ext : IsExtension to_extended) (r : E) where
  -- Where the first values are zero, the extended values are.
  pub extended_zero :
      (z : ZeroPositions) (s : Sharing A)
      → Conforms z s
      → to_extended 𝟘 ≡ 𝟘
      → Conforms z (map_three (λ t. new (to_extended t.left) (to_extended t.right)) s)
  extended_zero z s c e = record {
    first_zero = λ h. ap to_extended (c.first_zero h) ∙ e;
    second_zero = λ h. ap to_extended (c.second_zero h) ∙ e;
    third_zero = λ h. ap to_extended (c.third_zero h) ∙ e;
  }

  regroup : (a b : E) → a ⊗ r ⊗ b ≡ a ⊗ b ⊗ r
  unfolding normalise
  regroup a b =
      solve re (values (a ∷ b ∷ r ∷ [])) (var 0 ⊗ var 2 ⊗ var 1) (var 0 ⊗ var 1 ⊗ var 2) refl

  sub_self : (a : A) → a ⊖ a ≡ 𝟘
  unfolding normalise
  sub_self a = solve ra (values (a ∷ [])) (var 0 ⊖ var 0) 𝟘 refl

  sub_self_extended : (a : E) → a ⊖ a ≡ 𝟘
  unfolding normalise
  sub_self_extended a = solve re (values (a ∷ [])) (var 0 ⊖ var 0) 𝟘 refl

  extend_zero : to_extended 𝟘 ≡ 𝟘
  extend_zero =
      ap to_extended (sym (sub_self 𝟘)) ∙ ext.extend_sub 𝟘 𝟘 ∙ sub_self_extended (to_extended 𝟘)

  b_induced-Shares :
      (b : Three (MaliciousShare A E)) {w : A}
      → Shares (x_of b) w
      → Shares (b_induced to_extended b) (to_extended w)
  unfolding induced
  b_induced-Shares b h = induced-Shares re ext (x_of b) h

  -- The product of two values that carry `r` times themselves is such a value again. All helpers
  -- return, and their codes have taken it in. The conditions are those of the semi-honest
  -- multiplication: zeros where they are claimed, correlated randomness, and with debug assertions
  -- a multiplication that needs communication.
  pub malicious_multiply-Authentic :
      (decA : Discrete A) (decE : Discrete E) (debug : Bool) (za zb : ZeroPositions)
      (prss : Sharing A) (duplicate_prss random_constant : Sharing E)
      (a b : Three (MaliciousShare A E)) (states : Three (AccumulatorState E)) {v w : A}
      → (debug && is_pointless za zb) ≡ false
      → Conforms za (x_of a)
      → Conforms zb (x_of b)
      → Authentic to_extended r a v
      → Authentic to_extended r b w
      → IsReplicated prss
      → IsReplicated duplicate_prss
      → (ab : Three (MaliciousShare A E)) × (malicious_multiply to_extended decA decE debug
            (za, zb)
            prss
            duplicate_prss
            random_constant
            a
            b
            states
          ≡ done (
            ab,
            tabulate (λ role.
                accumulate_macs to_extended
                  (at random_constant role)
                  (at ab role)
                  (at states role)),
          ))
        × Authentic to_extended r ab (v ⊗ w)
  unfolding malicious_multiply
  malicious_multiply-Authentic decA decE debug za zb prss dprss alpha a b states {v} {w} h ca cb ha
        hb hp hd =
      let (x, ex, sx) =
        multiply-Computes ra decA debug za zb (x_of a) (x_of b) prss h ca cb ha.shares_x hb.shares_x
          hp in
      let (rx, erx, srx) =
        multiply-Computes re decE debug pvvv zb (rx_of a) (b_induced to_extended b) dprss
          (pvvv_needs_work debug zb) (pvvv-Conforms (rx_of a))
          (extended_zero zb (x_of b) cb extend_zero) ha.shares_rx (b_induced-Shares b hb.shares_x)
          hd in
      (
        zip_three (λ s t. record { x = s; rx = t }) x rx,
        rw (ex, erx),
        record {
          shares_x = sx;
          shares_rx =
              subst (Shares rx)
                (regroup (to_extended v) (to_extended w)
                  ∙ ap (λ y. y ⊗ r) (sym (ext.extend_mul v w)))
                srx;
        },
      )
