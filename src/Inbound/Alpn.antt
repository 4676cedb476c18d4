-- ===== src/Inbound/Alpn.antt =====
-- proxy/inbound/alpn.go: `OptionalALPN`.
use ne_xt_server.Base.Result.{Result, ok}
use ne_xt_server.Inbound.Tls.{ClientHello}
use Prim.Native.String.{String}
use text.Mathlib.Text.{◌==◌ as str_eq}
use ne_xt_server.Base.Result.{Result, ok, err, Result-cases}
use ne_xt_server.Base.{
  ℕ, ◌≡◌, refl, ◌≢◌, ◌⊎◌, inl, inr, Bool, true, false, not, ◌||◌, Option, none, some, List, [], ◌∷◌,
  arith, if◌then◌else◌, any,
}

-- A TLS config, as far as its ALPN list goes; `settings` stands for the rest.
pub record StdConfig : Type 0 where
  pub next_protos : List String
  pub settings : ℕ

abbrev pub is_nil {ℓ} : {A : Type ℓ} → List A → Bool
is_nil [] = true
is_nil (_ ∷ _) = false

-- Without an ALPN list of the client the server has none either.
abbrev pub optional_protos : ClientHello → StdConfig → StdConfig
optional_protos hello base =
    if not (is_nil hello.supported_protos) || is_nil base.next_protos
    then base
    else record base { next_protos = [] }

module _ {Error : Type 0} where
  -- The config that sing-box's hook selects, if there is a hook and it selects one.
  unfoldable pub base_config :
      StdConfig
      → Option (ClientHello → Result Error (Option StdConfig))
      → ClientHello
      → Result Error StdConfig
  base_config config none hello = ok config
  base_config config (some current) hello = elim (current hello) [
    | err e ↦ err e
    | ok none ↦ ok config
    | ok (some selected) ↦ ok selected
  ]

  selected_config : ClientHello → Result Error StdConfig → Result Error StdConfig
  selected_config hello (err e) = err e
  selected_config hello (ok base) = ok (optional_protos hello base)

  -- `GetConfigForClient` of the config that `STDConfig` returns.
  unfoldable pub config_for_client :
      StdConfig
      → Option (ClientHello → Result Error (Option StdConfig))
      → ClientHello
      → Result Error StdConfig
  unfolding base_config selected_config
  config_for_client config current hello = selected_config hello (base_config config current hello)

-- What RFC 9001 asks of a QUIC handshake: both sides name a protocol in common, or neither names any.
abbrev pub Agrees : List String → List String → Type 0
Agrees client server =
    ((client ≡ []) × (server ≡ [])) ⊎ (any (λ c. any (λ s. str_eq s c) server) client ≡ true)

is_nil_cases : {A : Type 0} (xs : List A) → (xs ≡ []) ⊎ ((is_nil xs ≡ false) × (xs ≢ []))
is_nil_cases [] = inl refl
is_nil_cases (x ∷ xs) = inr (refl, λ e. absurd (cc))

protos_cases :
    (hello : ClientHello) (base : StdConfig)
    → let c = optional_protos hello base in
      ((hello.supported_protos ≡ []) × Agrees hello.supported_protos c.next_protos)
      ⊎ ((hello.supported_protos ≢ []) × (c ≡ base))
protos_cases hello base = elim (is_nil_cases hello.supported_protos) [
  | inr (f, ne) ↦ inr (ne, ground (arith, f))
  | inl e ↦ elim (is_nil_cases base.next_protos) [
    | inr (f, ne) ↦ inl (e, inl (e, ground (arith, e, f)))
    | inl f ↦ inl (e, inl (e, ground (arith, e, f)))
  ]
]

-- A client that names no protocol is served with a config that has none either, so that the two agree,
-- and one that names some is served with the config that sing-box selects for it, unchanged, or, if it
-- selects none, with the server's. Nothing but the list of protocols changes, and only an error of
-- sing-box's hook is an error.
pub config_for_client-Agrees :
    {Error : Type 0} (config : StdConfig)
    (current : Option (ClientHello → Result Error (Option StdConfig))) (hello : ClientHello)
    → ((e : Error) × (base_config config current hello ≡ err e)
        × (config_for_client config current hello ≡ err e))
      ⊎ ((base c : StdConfig) × (base_config config current hello ≡ ok base)
          × (config_for_client config current hello ≡ ok c)
          × (c.settings ≡ base.settings)
          × (((hello.supported_protos ≡ []) × Agrees hello.supported_protos c.next_protos)
              ⊎ ((hello.supported_protos ≢ []) × (c ≡ base))))
unfolding config_for_client selected_config
config_for_client-Agrees config current hello =
    elim (Result-cases (base_config config current hello)) [
      | inr (e, f) ↦ inl (e, f, rw f refl)
      | inl (base, f) ↦
          inr
            (base, optional_protos hello base, f, rw f refl, ground arith, protos_cases hello base)
    ]
