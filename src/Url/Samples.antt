-- ===== src/Url/Samples.antt =====
-- A parser of `https` URLs with a host and a path, for tests.
use ziti_k8s_agent.Base.{[], ◌∷◌, ◌++◌, Text, codes, has_prefix, drop, ◌==◌, if◌then◌else◌, ok, err}
use ziti_k8s_agent.Url.{UrlLib}

-- The text before the first slash, and the text from it on.
abbrev cut_path : Text → Text × Text
cut_path [] = ([], [])
cut_path (c ∷ s) =
    let (host, path) = cut_path s in if c == b'/' then ([], c ∷ s) else (c ∷ host, path)

abbrev pub sample_urls : UrlLib
sample_urls = record {
  Url = Text × Text;
  parse = λ url.
      if has_prefix url (codes "https://")
      then ok (cut_path (drop 8 url))
      else err (codes "no scheme");
  scheme = λ p. codes "https";
  host = λ p. p.0;
  path = λ p. p.1;
  with_path = λ path p. (p.0, path);
  to_text = λ p. codes "https://" ++ (p.0 ++ p.1);
}
