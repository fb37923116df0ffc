-- ===== src/Operator/Webhook/Lasting.antt =====
-- How long the certificate of a webhook lasts: hours as nanoseconds in 64 bits.
use ziti_k8s_agent.Base.{◌-◌, ◌*◌, ◌≤◌, ◌≡◌, ap, ◌∙◌, arith, ℕ, some, pos, negsuc}
use ziti_k8s_agent.Operator.Webhook.{ZitiWebhook}
use ziti_k8s_agent.Operator.Webhook.Desired.{desired_certificate, hours, hour, word}

hours_exact : (n : ℕ) → n ≤ 2562047 → hours (pos n) ≡ pos (n * hour)
unfolding hours
hours_exact n h = ground arith

hours_wrap : (n : ℕ) → 2562048 ≤ n → n ≤ 5124095 → hours (pos n) ≡ negsuc (word - n * hour - 1)
unfolding hours
hours_wrap n h k = ground arith

-- A certificate is asked for the hours of the specification up to 2562047 of them; for more, up to
-- twice as many, the duration is a negative one.
pub certificate_lasts :
    (z : ZitiWebhook) (n : ℕ)
    → z.spec.cert.duration ≡ pos n
    → (n ≤ 2562047 → (desired_certificate z).spec.duration ≡ some (pos (n * hour)))
      × (2562048 ≤ n
          → n ≤ 5124095
          → (desired_certificate z).spec.duration ≡ some (negsuc (word - n * hour - 1)))
unfolding desired_certificate
certificate_lasts z n e = (
  λ h. ap (λ d. some (hours d)) e ∙ ap some (hours_exact n h),
  λ h k. ap (λ d. some (hours d)) e ∙ ap some (hours_wrap n h k),
)
