-- ===== src/Inbound/Tls.antt =====
-- proxy/inbound/tls.go: the certificate that a TLS server of a node gives. sing-box's TLS server,
-- which gets the certificates, and Go's `strings.EqualFold` are parameters.
use ne_xt_server.Base.Result.{Result, err, ok, Result-cases}
use ne_xt_server.Panel.Config.{AcmeOptions, InboundTlsOptions}
use Prim.Native.String.{String}
use text.Mathlib.Text.{◌==◌ as str_eq}
use ne_xt_server.Base.{
  ℕ, ◌≡◌, refl, ◌⊎◌, inl, inr, Bool, true, false, ◌||◌, Option, none, some, List, [], ◌∷◌, arith,
  if◌then◌else◌, Bool-cases, any,
}

-- `tls.ClientHelloInfo`, as far as it is read or changed; the rest of it goes with the connection.
pub record ClientHello : Type 0 where
  pub server_name : String
  pub supported_protos : List String
  pub connection : ℕ

-- `C.ACMETLS1Protocol`
abbrev pub acme_tls1 : String
acme_tls1 = "acme-tls/1"

abbrev pub contains : String → List String → Bool
contains s = any (λ t. str_eq t s)

abbrev pub reality_enabled : Option Bool → Bool
reality_enabled none = false
reality_enabled (some enabled) = enabled

-- The name whose certificate is the fallback, for options with ACME domains.
abbrev pub fallback_domain : AcmeOptions → List String → Option String
fallback_domain acme [] = none
fallback_domain acme (domain ∷ domains) =
    some (if str_eq acme.default_server_name "" then domain else acme.default_server_name)

abbrev pub fallback_acme : Bool → Option AcmeOptions → Option String
fallback_acme true acme = none
fallback_acme false none = none
fallback_acme false (some acme) = fallback_domain acme acme.domain

unfoldable pub fallback_name : InboundTlsOptions → Option String
fallback_name options = fallback_acme (reality_enabled options.reality) options.acme

module _ {Certificate Error : Type 0} (equal_fold : String → String → Bool) where
  -- What the getter answers decides whether it is asked again.
  with_fallback :
      (ClientHello → Result Error Certificate)
      → String
      → ClientHello
      → Result Error Certificate
      → Result Error Certificate
  with_fallback get_certificate fallback hello (ok c) = ok c
  with_fallback get_certificate fallback hello (err e) =
      if equal_fold hello.server_name fallback || contains acme_tls1 hello.supported_protos
      then err e
      else get_certificate (record hello { server_name = fallback })

  unfoldable pub fallback_certificate :
      (ClientHello → Result Error Certificate) → String → ClientHello → Result Error Certificate
  unfolding with_fallback
  fallback_certificate get_certificate fallback hello =
      with_fallback get_certificate fallback hello (get_certificate hello)

  abbrev pub with_hook :
      (ClientHello → Result Error Certificate)
      → Option String
      → ClientHello
      → Result Error Certificate
  with_hook get_certificate none = get_certificate
  with_hook get_certificate (some fallback) = fallback_certificate get_certificate fallback

  abbrev pub hooked :
      InboundTlsOptions
      → Option (ClientHello → Result Error Certificate)
      → Option (ClientHello → Result Error Certificate)
  hooked options none = none
  hooked options (some get_certificate) = some (with_hook get_certificate (fallback_name options))

  -- `NewTLSServer`: how the node's server gets a certificate, by how sing-box's does, which may be an
  -- error, or no getter at all.
  unfoldable pub new_tls_server :
      InboundTlsOptions
      → Result Error (Option (ClientHello → Result Error Certificate))
      → Result Error (Option (ClientHello → Result Error Certificate))
  unfolding fallback_certificate fallback_name
  new_tls_server options (err e) = err e
  new_tls_server options (ok get_certificate) = ok (hooked options get_certificate)

  -- When clients that ask for the fallback's name, in upper or lower case, get a certificate, unless
  -- they bring a challenge of ACME: every client but those gets one, which is there for the name it asks
  -- for or for the fallback's. A challenge gets no other answer than that for its own name, which may be
  -- an error.
  pub fallback_certificate_serves :
      (get_certificate : ClientHello → Result Error Certificate) (fallback : String)
      (hello : ClientHello)
      → ((h : ClientHello)
          → equal_fold h.server_name fallback ≡ true
          → contains acme_tls1 h.supported_protos ≡ false
          → (c : Certificate) × (get_certificate h ≡ ok c))
      → equal_fold fallback fallback ≡ true
      → let answer = fallback_certificate get_certificate fallback hello in
        ((contains acme_tls1 hello.supported_protos ≡ true) × (answer ≡ get_certificate hello))
        ⊎ ((contains acme_tls1 hello.supported_protos ≡ false)
            × ((c : Certificate) × (answer ≡ ok c)
                × ((get_certificate hello ≡ ok c)
                    ⊎ (get_certificate (record hello { server_name = fallback }) ≡ ok c))))
  unfolding fallback_certificate with_fallback
  fallback_certificate_serves get_certificate fallback hello covered same =
      elim (Bool-cases (contains acme_tls1 hello.supported_protos)) [
        | inl a ↦ inl (
          a,
          elim (Result-cases (get_certificate hello)) [
            | inl (c, e) ↦ rw e refl
            | inr (x, e) ↦ rw e (ground (arith, a))
          ],
        )
        | inr a ↦ inr (
          a,
          elim (Result-cases (get_certificate hello)) [
            | inl (c, e) ↦ (c, rw e refl, inl e)
            | inr (x, e) ↦ elim (Bool-cases (equal_fold hello.server_name fallback)) [
              | inl b ↦ let (c, g) = covered hello b a in absurd (cc)
              | inr b ↦
                  let (d, f) = covered (record hello { server_name = fallback }) same a in
                  (d, rw (e, b, a) f, inr f)
            ]
          ],
        )
      ]
