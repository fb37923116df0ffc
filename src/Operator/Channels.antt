-- ===== src/Operator/Channels.antt =====
-- What the reconciler of controllers sends to the two other reconcilers, over any sequence of
-- reconciliations and receives.
use ziti_k8s_agent.Base.{
  ℕ, suc, ◌+◌, ◌≤◌, ◌≡◌, refl, ◌∙◌, ◌⊎◌, inl, inr, true, false, List, [], ◌∷◌, ◌++◌, arith, Text,
  text_eq_refl, length, length-append, Result, ok, err, panic,
}
use ziti_k8s_agent.Operator.{ZitiController, ZitiControllerSpec}
use ziti_k8s_agent.Operator.Admin.{
  OperatorApi, Reconciler, notify, spec_eq, reconcile, reconcile_fetched, after_secret,
  settle_secret, Fetch, found, not_found, failed, no_controller, first_access, try_send,
}

spec_eq_refl : (s : ZitiControllerSpec) → spec_eq s s ≡ true
spec_eq_refl s =
    rw (text_eq_refl s.name, text_eq_refl s.admin_jwt, text_eq_refl s.ziti_ctrl_mgmt_api) refl

-- The copy always equals the object.
notify_first : (z : ZitiController) (r : Reconciler) → notify z z r ≡ first_access z r
unfolding notify
notify_first z r = rw (spec_eq_refl z.spec) refl

notify_silent : (z : ZitiController) (r : Reconciler) → r.channel_checked ≡ true → notify z z r ≡ r
notify_silent z r h = notify_first z r ∙ rw h refl

module _ {W Claims : Type 0} (A : OperatorApi W Claims) where
  after_silent :
      (z : ZitiController) (r : Reconciler) (p : Result (Unit {0}) × W)
      → r.channel_checked ≡ true
      → (after_secret A z r p).1 ≡ r
  after_silent z r (ok _, w) h = notify_silent z r h
  after_silent z r (err e, w) h = refl
  after_silent z r (panic, w) h = refl

  fetched_silent :
      (now : ℕ) (r : Reconciler) (f : Fetch ZitiController) (w : W)
      → r.channel_checked ≡ true
      → (reconcile_fetched A now r f w).1 ≡ r
  fetched_silent now r not_found w h = refl
  fetched_silent now r (found z) w h = after_silent z r (settle_secret A now z w) h
  fetched_silent now r (failed e) w h =
      after_silent no_controller r (settle_secret A now no_controller w) h

  -- Once the reconciler has checked its channels, no reconciliation sends anything: not when the
  -- specification of the controller has changed either.
  pub reconcile_silent :
      (now : ℕ) (key : Text) (r : Reconciler) (w : W)
      → r.channel_checked ≡ true
      → (reconcile A now key r w).1 ≡ r
  unfolding reconcile
  reconcile_silent now key r w h = fetched_silent now r _ _ h

-- The reconciler, and the controllers that the reconciler of webhooks has received from it.
pub record Watch : Type 0 where
  pub reconciler : Reconciler
  pub received : List ZitiController

abbrev pub watch_start : Watch
watch_start = record {
  reconciler = record { webhook_chan = []; router_chan = []; channel_checked = false };
  received = [];
}

module _ {W Claims : Type 0} (A : OperatorApi W Claims) where
  -- A reconciliation, in any world, or a receive from the channel.
  pub data Step : Watch → Watch → Type 0 where
    reconciled :
        {v : Watch} (now : ℕ) (key : Text) (w : W)
        → Step v (record v { reconciler = (reconcile A now key v.reconciler w).1 })
    receives :
        {v : Watch} (z : ZitiController) (rest : List ZitiController)
        → v.reconciler.webhook_chan ≡ z ∷ rest
        → Step v (record {
          reconciler = record v.reconciler { webhook_chan = rest };
          received = v.received ++ z ∷ [];
        })

  -- The states that the operator reaches.
  pub data Reached : Watch → Type 0 where
    start : Reached watch_start
    next : {v v' : Watch} → Reached v → Step v v' → Reached v'

  abbrev messages : Watch → ℕ
  messages v = length v.received + length v.reconciler.webhook_chan

  abbrev Inv : Watch → Type 0
  Inv v =
      ((v.reconciler.channel_checked ≡ false) × (messages v ≡ 0))
      ⊎ ((v.reconciler.channel_checked ≡ true) × (messages v ≤ 1))

  sent_le :
      (chan : List ZitiController) (z : ZitiController) (n : ℕ)
      → n + length chan ≡ 0
      → n + length (try_send chan z) ≤ 1
  sent_le chan z n e = ground (arith, length-append {0} chan (z ∷ []))

  after_first :
      (z : ZitiController) (r : Reconciler) (received : List ZitiController)
      (p : Result (Unit {0}) × W)
      → r.channel_checked ≡ false
      → length received + length r.webhook_chan ≡ 0
      → Inv (record { reconciler = (after_secret A z r p).1; received = received })
  after_first z r received (ok _, w) h e = inr (
    rw (notify_first z r, h) refl,
    rw (notify_first z r, h) (sent_le r.webhook_chan z (length received) e),
  )
  after_first z r received (err _, w) h e = inl (h, e)
  after_first z r received (panic, w) h e = inl (h, e)

  step_first :
      (now : ℕ) (r : Reconciler) (received : List ZitiController) (f : Fetch ZitiController) (w : W)
      → r.channel_checked ≡ false
      → length received + length r.webhook_chan ≡ 0
      → Inv (record { reconciler = (reconcile_fetched A now r f w).1; received = received })
  step_first now r received not_found w h e = inl (h, e)
  step_first now r received (found z) w h e = after_first z r received (settle_secret A now z w) h e
  step_first now r received (failed m) w h e =
      after_first no_controller r received (settle_secret A now no_controller w) h e

  Step-Inv : (v v' : Watch) → Step v v' → Inv v → Inv v'
  unfolding reconcile
  Step-Inv v v' (reconciled now key w) (inl (h, e)) =
      step_first now v.reconciler v.received (A.get_controller key w).0 (A.get_controller key w).1 h
        e
  Step-Inv v v' (reconciled now key w) (inr (h, e)) =
      inr (rw (reconcile_silent A now key v.reconciler w h) (h, e))
  Step-Inv v v' (receives z rest e) (inl (h, none_left)) =
      let taken : length v.received + suc (length rest) ≡ 0 = rw e at none_left in
      absurd (omega arith)
  Step-Inv v v' (receives z rest e) (inr (h, few)) =
      let taken : length v.received + suc (length rest) ≤ 1 = rw e at few in
      inr (h, omega (arith, length-append {0} v.received (z ∷ [])))

  Reached-Inv : {v : Watch} → Reached v → Inv v
  Reached-Inv start = inl (refl, refl)
  Reached-Inv (next {v} {v'} r s) = Step-Inv v v' s (Reached-Inv r)

  -- Over any sequence of reconciliations and receives, in any worlds, the reconciler of webhooks is
  -- sent one message at most.
  pub sent_at_most_once :
      {v : Watch} → Reached v → length v.received + length v.reconciler.webhook_chan ≤ 1
  sent_at_most_once r = elim (Reached-Inv r) [ inl (h, e) ↦ omega arith | inr (h, e) ↦ e ]
