-- ===== src/Manager/Http.antt =====
-- The TLS options that `main` gives to the metrics server and to the webhook server.
use dbchan.Base.{
  ◌≡◌, ◌⊎◌, inl, inr, sym, ap, ◌∙◌, refl, Bool, true, false, List, [], ◌∷◌, any, if◌then◌else◌,
}
use dbchan.Base.Text.{String, ◌==◌}
use dbchan.Manager.{Flags, TlsConfig, disable_http2, tls_opts, manager_options}

-- How a server makes its TLS configuration: it calls the functions of its options in their order.
pub record AppliesOptions (configure : List (TlsConfig → TlsConfig) → TlsConfig → TlsConfig)
    : Type 0 where
  pub on_none : (c : TlsConfig) → configure [] c ≡ c
  pub on_next :
      (f : TlsConfig → TlsConfig) (fs : List (TlsConfig → TlsConfig)) (c : TlsConfig)
      → configure (f ∷ fs) c ≡ configure fs (f c)

abbrev pub offers : String → TlsConfig → Bool
offers protocol c = any (λ p. p == protocol) c.next_protos

module _ (configure : List (TlsConfig → TlsConfig) → TlsConfig → TlsConfig)
    (applies : AppliesOptions configure) where
  disabled :
      (c : TlsConfig) → configure (disable_http2 ∷ []) c ≡ record { next_protos = "http/1.1" ∷ [] }
  unfolding disable_http2
  disabled c = rw (applies.on_next disable_http2 [] c, applies.on_none (disable_http2 c)) refl

  offers_with :
      (on : Bool) (c : TlsConfig)
      → offers "h2" (configure (if on then [] else disable_http2 ∷ []) c) ≡ true
      → on ≡ true
  offers_with true c h = refl
  offers_with false c h = sym (ap (offers "h2") (disabled c)) ∙ h

-- If servers apply the functions of their options in order, the metrics server or the webhook server
-- offers HTTP/2, whatever its own configuration, only if the flag enables it.
pub manager_options-http2 :
    (configure : List (TlsConfig → TlsConfig) → TlsConfig → TlsConfig)
    → AppliesOptions configure
    → (flags : Flags) (c : TlsConfig)
    → (offers "h2" (configure (manager_options flags).metrics_tls_opts c) ≡ true)
      ⊎ (offers "h2" (configure (manager_options flags).webhook_tls_opts c) ≡ true)
    → flags.enable_http2 ≡ true
unfolding tls_opts
manager_options-http2 configure applies flags c (inl h) =
    offers_with configure applies flags.enable_http2 c h
manager_options-http2 configure applies flags c (inr h) =
    offers_with configure applies flags.enable_http2 c h
