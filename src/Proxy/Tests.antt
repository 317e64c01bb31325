-- ===== src/Proxy/Tests.antt =====
-- The proxy with templates and an upstream that does not answer.
use tanugate.Common.{
  ℕ, ◌≡◌, refl, ◌<>◌, none, some, [], ◌∷◌, err, contains_char, cut_prefix, inr, arith, eq_iff,
}
use tanugate.Http.{Request, no_body}
use tanugate.Config.Semantic.Tests.{route}
use tanugate.Proxy.{Upstream, rewrite, replace_from, new_proxy_handler, director, unavailable}
use tanugate.Proxy.Rewriting.{rewrite_placeholder, rewrite_constant}

-- The result depends on the order in which the map is read, where a value looks like a placeholder.
orders :
    (rewrite (("a", "{b}") ∷ (("b", "x") ∷ [])) "/v/{a}" ≡ "/v/x")
    × (rewrite (("b", "x") ∷ (("a", "{b}") ∷ [])) "/v/{a}" ≡ "/v/{b}")
unfolding rewrite replace_from cut_prefix
orders = (refl, refl)

constant_template : rewrite (("id", "7") ∷ []) "/fixed" ≡ "/fixed"
unfolding contains_char
constant_template = rewrite_constant (("id", "7") ∷ []) "/fixed" refl

rewrite_placeholder_example :
    rewrite
      (("org", "{id}") ∷ (("id", "7") ∷ (("v", "x") ∷ [])))
      ("/users/" <> ("{" <> "id" <> "}" <> "/posts"))
    ≡ "/users/7/posts"
unfolding contains_char
rewrite_placeholder_example =
    rewrite_placeholder "id" "/users/" "/posts" refl refl "7" (("org", "{id}") ∷ [])
      (("v", "x") ∷ []) (refl, refl) (((refl, refl), λ e. ground (arith, eq_iff "org" "id")), tt)
      (inr refl)

abbrev silent : Upstream ℕ
silent = record {
  parse_url = λ s. some (record { scheme = "http"; host = "up" });
  round_trip = λ out limit w. (err "refused", w);
}

abbrev ask : Request
ask = record {
  method = "GET";
  host = "h";
  path = "/a";
  remote_addr = "";
  header = [];
  body = no_body;
  context = record {
    request_id = none;
    auth_result = none;
    matched_route = none;
    start_time = none;
  };
}

no_upstream : (new_proxy_handler silent route ask 0).calls ≡ unavailable
unfolding new_proxy_handler director rewrite
no_upstream = refl
