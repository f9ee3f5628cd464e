-- ===== src/Protocol/Basics/Mul.antt =====
-- src/protocol/basics/mul/semi_honest.rs: the multiplication of two shared values.
pub mod Sparse
pub mod Correct
pub mod Output
pub mod Debug
use raw_ipa.Prelude.{◌≡◌, refl, Bool, if◌then◌else◌, ◌&&◌, not}
use mathlib.Core.Logic.{ite}
use raw_ipa.Algebra.{Field, ◌⊕◌, ◌⊖◌, ◌⊗◌, 𝟘}
use raw_ipa.Helpers.Role.{Role, Direction, at, peer, tabulate}
use raw_ipa.SecretSharing.Replicated.{AdditiveShare, new}
use raw_ipa.SecretSharing.Sharing.{Sharing}
use raw_ipa.Protocol.Exchange.{
  Outcome, panic, done, Exchange, only, nothing, receive, exchange, together, ◌>>=◌, ◌>>◌,
}
use raw_ipa.Protocol.Basics.ZeroPositions.{MultiplyZeroPositions, Work, work_for, check}

module _ {ℓ} {A : Type ℓ} ⦃f : Field A⦄ where
  -- The part of `multiply` that follows the checks, at a helper with the work `w` to do. The shared
  -- randomness is `prss`, `(s0, s1)`.
  unfoldable pub multiply_with :
      Work
      → Role
      → AdditiveShare A
      → AdditiveShare A
      → AdditiveShare A
      → Exchange A (AdditiveShare A)
  multiply_with w role a b prss =
      let s0 = prss.left in
      let s1 = prss.right in
      let right_d = a.left ⊗ b.right ⊕ a.right ⊗ b.left ⊖ s0 in
      let rhs = a.right ⊗ b.right in
      let rhs = if w.need_to_send then rhs ⊕ right_d else rhs in
      let rhs = if w.need_random_right then rhs ⊕ s1 else rhs in
      let lhs = a.left ⊗ b.left in
      let masked : A → A = λ l. if w.need_to_send then l ⊕ s0 else l in
      record {
        sent = if w.need_to_send then only (peer role Direction.right) right_d else nothing;
        resume = λ inbox.
            if w.need_to_recv
            then (receive (inbox (peer role Direction.left)) >>= λ left_d.
                done (new (masked (lhs ⊕ left_d)) rhs))
            else done (new (masked lhs) rhs);
      }

  -- The debug assertion of a helper that does not send.
  unfoldable pub nothing_to_send :
      Discrete A → Bool → Work → AdditiveShare A → AdditiveShare A → Outcome (Unit {0})
  nothing_to_send dec debug w a b =
      if debug && not w.need_to_send
      then ite (dec (a.left ⊗ b.right ⊕ a.right ⊗ b.left) 𝟘) (done tt) panic
      else done tt

  -- `multiply` at one helper.
  unfoldable pub multiply :
      Discrete A
      → Bool
      → MultiplyZeroPositions
      → Role
      → AdditiveShare A
      → AdditiveShare A
      → AdditiveShare A
      → Outcome (Exchange A (AdditiveShare A))
  unfolding multiply_with nothing_to_send work_for check
  multiply dec debug zeros role a b prss = do
    w ← work_for debug zeros role
    check dec debug zeros.0 role a
    check dec debug zeros.1 role b
    nothing_to_send dec debug w a b
    done (multiply_with w role a b prss)

  -- The three helpers run `multiply` on their shares, with shared randomness.
  unfoldable pub multiply_all :
      Discrete A
      → Bool
      → MultiplyZeroPositions
      → Sharing A
      → Sharing A
      → Sharing A
      → Outcome (Sharing A)
  multiply_all dec debug zeros a b prss =
      together (exchange (tabulate (λ r. multiply dec debug zeros r (at a r) (at b r) (at prss r))))

  pub multiply_all_lem :
      (dec : Discrete A) (debug : Bool) (zeros : MultiplyZeroPositions) (a b prss : Sharing A)
      → multiply_all dec debug zeros a b prss
        ≡ together
            (exchange (tabulate (λ r. multiply dec debug zeros r (at a r) (at b r) (at prss r))))
  unfolding multiply_all
  multiply_all_lem dec debug zeros a b prss = refl
