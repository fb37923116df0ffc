-- ===== src/Operator/Router/ConfigLines.antt =====
-- Lines that are in the text of a router's configuration.
use ziti_k8s_agent.Base.{
  ◌≡◌, refl, ap, sym, ◌∙◌, true, List, [], ◌∷◌, ◌++◌, Text, codes, ℤ, pos, format_int, append_assoc,
  contains, contains-append, take, drop,
}
use ziti_k8s_agent.Operator.Router.{ZitiRouter}
use ziti_k8s_agent.Operator.Router.Defaults.{service_port}
use ziti_k8s_agent.Operator.Router.ConfigText.{lines, config_lines, config_text, edge_address}

lines_append : (before after : List Text) → lines (before ++ after) ≡ lines before ++ lines after
lines_append [] after = refl
lines_append (l ∷ before) after =
    ap (λ rest. l ++ 10 ∷ rest) (lines_append before after)
    ∙ sym (append_assoc l (10 ∷ lines before) (lines after))

-- A line of a text is in it.
contains-lines :
    (before after : List Text) (l : Text) → contains (lines (before ++ l ∷ after)) l ≡ true
contains-lines before after l =
    rw (lines_append before (l ∷ after)) (contains-append (lines before) l (10 ∷ lines after))

pub contains-config_text :
    (r : ZitiRouter) (port : ℤ)
    → contains (config_text r port) (codes "  endpoint: " ++ r.spec.ctrl_endpoint) ≡ true
unfolding config_text config_lines
contains-config_text r port =
    contains-lines (take 8 (config_lines r port)) (drop 9 (config_lines r port))
      (codes "  endpoint: " ++ r.spec.ctrl_endpoint)

advertised :
    (r : ZitiRouter) (port : ℤ)
    → contains
        (config_text r port)
        (codes "      advertise: " ++ (edge_address r ++ b':' ∷ format_int service_port))
      ≡ true
unfolding config_text config_lines
advertised r port =
    contains-lines (take 18 (config_lines r port)) (drop 19 (config_lines r port))
      (codes "      advertise: " ++ (edge_address r ++ b':' ∷ format_int service_port))

pub advertised_at :
    (r : ZitiRouter) (address : Text)
    → edge_address r ≡ address
    → contains
        (config_text r (pos 9443))
        (codes "      advertise: " ++ (address ++ b':' ∷ format_int service_port))
      ≡ true
advertised_at r address e = rw (← e) (advertised r (pos 9443))
