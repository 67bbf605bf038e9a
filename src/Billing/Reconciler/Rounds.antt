-- ===== src/Billing/Reconciler/Rounds.antt =====
-- internal/billing/reconciliation.go: the loop over the pages of a link.
use glass_eqserver.Prelude.{
  ℕ, zero, suc, ◌+◌, ◌≤◌, ◌<◌, Bool, true, false, ◌&&◌, not, Bytes, ◌==◌, ◌≡◌, refl, ap, arith,
  if◌then◌else◌,
}
use mathlib.Core.Path.{fun_ext}
use glass_eqserver.Store.Tables.{Time}
use glass_eqserver.Store.Effect.{M, Failure, throw_if, ◌>>=◌}
use glass_eqserver.Billing.Objects.{Page, CheckoutSession}
use glass_eqserver.Billing.Reconciler.{
  Reconciler, Scan, maximum_link_sessions, enough_rounds, page_length, last_id, scan_link,
}

bind_cong : {A B : Type 0} (m : M A) (f g : A → M B) → ((a : A) → f a ≡ g a) → (m >>= f) ≡ (m >>= g)
bind_cong m f g h = ap (λ k. m >>= k) (fun_ext h)

-- Behind a guard only what it lets through matters.
guard_cong :
    {B : Type 0} (b : Bool) (e : Failure) (f g : Unit {0} → M B)
    → (b ≡ false → f tt ≡ g tt)
    → (throw_if b e >>= f) ≡ (throw_if b e >>= g)
unfolding throw_if ◌>>=◌
guard_cong true e f g h = refl
guard_cong false e f g h = h refl

else_cong :
    {B : Type 0} (b : Bool) (k m n : M B)
    → (b ≡ false → m ≡ n)
    → (if b then k else m) ≡ (if b then k else n)
else_cong true k m n h = refl
else_cong false k m n h = h refl

-- A page that more pages follow is not empty.
page_grows :
    (page : Page CheckoutSession)
    → page_length page == 0 && page.has_more ≡ false
    → not page.has_more ≡ false
    → 1 ≤ page_length page
page_grows page filled more = ground arith

module _ (r : Reconciler) (today : Time) where
  -- The number of rounds does not matter once it is above what the limit leaves.
  rounds :
      (fuel other seen : ℕ) (link cursor : Bytes) (x : Scan)
      → seen ≤ maximum_link_sessions
      → maximum_link_sessions < fuel + seen
      → maximum_link_sessions < other + seen
      → scan_link r today fuel seen link cursor x ≡ scan_link r today other seen link cursor x
  unfolding scan_link
  rounds zero other seen link cursor x l f g = absurd (omega arith)
  rounds (suc fuel) zero seen link cursor x l f g = absurd (omega arith)
  rounds (suc fuel) (suc other) seen link cursor x l f g = bind_cong _ _ _ λ page.
      guard_cong _ _ _ _ λ filled. guard_cong _ _ _ _ λ within. bind_cong _ _ _ λ y.
        else_cong _ _ _ _ λ more. guard_cong _ _ _ _ λ moved.
          let grows = page_grows page filled more in
          rounds fuel other (seen + page_length page) link (last_id page.data_items cursor) y
            (ground arith) (omega (arith, grows)) (omega (arith, grows))

-- The scan of a link ends by its own tests: any number of rounds from 10,001 on gives the same
-- scan, whatever Stripe and the database answer.
pub scan_link_enough :
    (r : Reconciler) (today : Time) (fuel : ℕ) (link cursor : Bytes) (x : Scan)
    → enough_rounds ≤ fuel
    → scan_link r today fuel 0 link cursor x ≡ scan_link r today enough_rounds 0 link cursor x
scan_link_enough r today fuel link cursor x h =
    rounds r today fuel enough_rounds 0 link cursor x (omega arith) (omega arith) (omega arith)
