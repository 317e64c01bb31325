-- ===== src/RateLimit/Keys.antt =====
-- Which client a request is counted for: `extractIP` and `extractKey`.
use Prim.Native.Char.{Char, char, code}
use text.Mathlib.TextLemmas.{nil-append, cons-append, cons-ne-nil}
use tanugate.Common.{
  ℕ, ◌≤◌, ◌<>◌, ◌≡◌, ◌≢◌, refl, sym, ap, ◌∙◌, String, true, false, some, List, [], ◌∷◌, ◌++◌, ◌===◌,
  ◌==◌, split, eq_iff, arith, Option-cases, Bool-cases, inl, inr, ◌⊎◌, subst, trim_space,
}
use tanugate.Http.{Request}
use tanugate.Http.Headers
use tanugate.RateLimit.{
  Net, size, truncate_key, is_trusted, remote_addr_ip, untrusted_entry, last_untrusted, extract_ip,
}

split-cons : (k : ℕ) (s : String) → (p : String) × (ps : List String) × (split k s ≡ p ∷ ps)
unfolding split
split-cons k String.[] = (String.[], [], refl)
split-cons k (String.◌∷◌ d s) = elim (Bool-cases (code d == k)) [
  | inl h ↦ (String.[], split k s, ground arith)
  | inr h ↦ let (p, ps, e) = split-cons k s in (String.◌∷◌ d p, ps, ground arith)
]

split_separator :
    (c : Char) (t : String) → split (code c) (String.◌∷◌ c t) ≡ String.[] ∷ split (code c) t
unfolding split
split_separator c t = ground arith

-- What stands before a separator splits on its own.
split-append :
    (c : Char) (s t : String)
    → split (code c) (s <> String.◌∷◌ c t) ≡ split (code c) s ++ split (code c) t
unfolding split
split-append c String.[] t = ap (split (code c)) (nil-append (String.◌∷◌ c t)) ∙ split_separator c t
split-append c (String.◌∷◌ d s) t =
    let ih = split-append c s t in
    let (p, ps, e) = split-cons (code c) s in ground (arith, cons-append d s (String.◌∷◌ c t))

separator_filled : (c : Char) (s t : String) → (s <> String.◌∷◌ c t) ≢ ""
separator_filled c String.[] t h = cons-ne-nil c t (sym (nil-append (String.◌∷◌ c t)) ∙ h)
separator_filled c (String.◌∷◌ d s) t h =
    cons-ne-nil d (s <> String.◌∷◌ c t) (sym (cons-append d s (String.◌∷◌ c t)) ∙ h)

abbrev comma : Char
comma = char b',' tt

comma-append : (t : String) → ("," <> t) ≡ String.◌∷◌ comma t
comma-append t = cons-append comma "" t ∙ ap (λ s. String.◌∷◌ comma s) (nil-append t)

split_comma : (s t : String) → split b',' (s <> ("," <> t)) ≡ split b',' s ++ split b',' t
split_comma s t = ap (λ u. split b',' (s <> u)) (comma-append t) ∙ split-append comma s t

comma_filled : (s t : String) → (s <> ("," <> t)) ≢ ""
comma_filled s t h = separator_filled comma s t (ap (λ u. s <> u) (sym (comma-append t)) ∙ h)

-- A key is never longer than 256 bytes, where the digest is not.
pub size-truncate_key :
    (digest : String → String) (val : String)
    → size (digest val) ≤ 256
    → size (truncate_key digest val) ≤ 256
unfolding truncate_key
size-truncate_key digest val h = ground arith

-- `Get` reads the first line of a header.
first_line :
    (h : Headers.Header) (name v : String) (vs : List String)
    → Headers.values h name ≡ v ∷ vs
    → Headers.get h name ≡ v
unfolding Headers.values Headers.get
first_line h name v vs e = ground arith

module _ (net : Net) where
  open net use {Ip, IpNet, parse_ip, split_host_port}

  last_untrusted-append :
      (nets : List IpNet) (forged parts : List String) (client : String)
      → last_untrusted net nets parts ≡ some client
      → last_untrusted net nets (forged ++ parts) ≡ some client
  unfolding last_untrusted
  last_untrusted-append nets [] parts client h = h
  last_untrusted-append nets (f ∷ forged) parts client h =
      let ih = last_untrusted-append nets forged parts client h in ground arith

  untrusted_entry_sound :
      (nets : List IpNet) (part client : String)
      → untrusted_entry net nets part ≡ some client
      → (ip : Ip) × (parse_ip client ≡ some ip) × (is_trusted net ip nets ≡ false)
  unfolding untrusted_entry
  untrusted_entry_sound nets part client h = elim (Option-cases (parse_ip (trim_space part))) [
    | inl n ↦ absurd (ground arith)
    | inr (ip, e) ↦
        let same : trim_space part ≡ client = ground arith in
        (ip, subst (λ x. parse_ip x ≡ some ip) same e, ground arith)
  ]

  last_untrusted_sound :
      (nets : List IpNet) (parts : List String) (client : String)
      → last_untrusted net nets parts ≡ some client
      → (ip : Ip) × (parse_ip client ≡ some ip) × (is_trusted net ip nets ≡ false)
  unfolding last_untrusted
  last_untrusted_sound nets [] client h = cc
  last_untrusted_sound nets (part ∷ parts) client h =
      elim (Option-cases (last_untrusted net nets parts)) [
        | inl n ↦ untrusted_entry_sound nets part client (ground arith)
        | inr (c, e) ↦ last_untrusted_sound nets parts client (ground arith)
      ]

  -- On a connection from a trusted proxy, where the proxies append to the first header line
  -- X-Forwarded-For: whatever a client writes in front of the entries that they add has no effect, and
  -- neither have further lines. If one of the added entries is an address outside the trusted networks,
  -- the last such one counts.
  pub extract_ip_unspoofable :
      (nets : List IpNet) (r : Request) (ip : Ip) (forged added client : String)
      (lines : List String)
      → parse_ip (remote_addr_ip net r) ≡ some ip
      → is_trusted net ip nets ≡ true
      → Headers.values r.header "X-Forwarded-For" ≡ (forged <> ("," <> added)) ∷ lines
      → last_untrusted net nets (split b',' added) ≡ some client
      → extract_ip net nets r ≡ client
  unfolding extract_ip
  extract_ip_unspoofable [] r ip forged added client lines p t x h = cc
  extract_ip_unspoofable (n ∷ ns) r ip forged added client lines p t x h =
      let first = first_line r.header "X-Forwarded-For" (forged <> ("," <> added)) lines x in
      let filled = comma_filled forged added in
      let found = last_untrusted-append (n ∷ ns) (split b',' forged) (split b',' added) client h in
      let parts = ap (split b',') first ∙ split_comma forged added in
      ground (arith, eq_iff (Headers.get r.header "X-Forwarded-For") "")

  -- The address counted is that of the connection, or the connection comes from a trusted proxy and
  -- it is an address outside the trusted networks.
  pub extract_ip_sound :
      (nets : List IpNet) (r : Request)
      → (extract_ip net nets r ≡ remote_addr_ip net r)
        ⊎ (((ip : Ip) × (parse_ip (remote_addr_ip net r) ≡ some ip)
              × (is_trusted net ip nets ≡ true))
            × ((ip : Ip) × (parse_ip (extract_ip net nets r) ≡ some ip)
                × (is_trusted net ip nets ≡ false)))
  unfolding extract_ip
  extract_ip_sound [] r = inl refl
  extract_ip_sound (n ∷ ns) r = elim (Option-cases (parse_ip (remote_addr_ip net r))) [
    | inl e ↦ inl (ground arith)
    | inr (ip, e) ↦ elim (Bool-cases (is_trusted net ip (n ∷ ns))) [
      | inl t ↦ elim (Bool-cases (Headers.get r.header "X-Forwarded-For" === "")) [
        | inl x ↦ inl (ground arith)
        | inr x ↦
            elim (Option-cases
              (last_untrusted net (n ∷ ns) (split b',' (Headers.get r.header "X-Forwarded-For")))) [
                | inl k ↦ inl (ground arith)
                | inr (client, k) ↦
                    let (out, a, b) =
                      last_untrusted_sound (n ∷ ns)
                        (split b',' (Headers.get r.header "X-Forwarded-For")) client k in
                    let same : client ≡ extract_ip net (n ∷ ns) r = ground arith in
                    inr ((ip, e, t), (out, subst (λ x. parse_ip x ≡ some out) same a, b))
              ]
      ]
      | inr f ↦ inl (ground arith)
    ]
  ]
