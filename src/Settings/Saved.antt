-- ===== src/Settings/Saved.antt =====
-- Settings that are saved and loaded.
use mathlib.Core.Option
use droidcli.Common.{
  ◌<◌, true, false, Option, none, some, [], ◌∷◌, ◌≡◌, refl, ap, ap₂, ◌∙◌, Bytes, codes, All,
  is_empty, same,
}
use droidcli.Json.Skip.{named}
use droidcli.Json.Object.{key, lookup_field}
use droidcli.Settings.{
  HostSettings, Dpapi, text_or_empty, hex_encode, dpapi_protect, dpapi_unprotect, unprotected,
  encrypted, chosen_secret, decrypt_secret_field, text_or, load_text, load_settings, save_text,
  save_settings,
}
use droidcli.Settings.Hex.{hex_decode-hex_encode}
use droidcli.Settings.Fields.{
  InInt32, wrap32_lem, string_read, bool_read, int_read, token_text, token_hex, plain_looked_up,
  hex_looked_up,
}

-- What the system documents of its encryption: what it gives is a text of bytes that is not empty, and
-- decrypts to what went in.
pub record IsDpapi (dpapi : Dpapi) : Type 0 where
  pub back : (v p : Bytes) → dpapi.protect v ≡ some p → dpapi.unprotect p ≡ some v
  pub nonempty : (v p : Bytes) → dpapi.protect v ≡ some p → is_empty p ≡ false
  pub bytes : (v p : Bytes) → dpapi.protect v ≡ some p → All (λ c. c < 256) p

abbrev pub IsPlatform : Option Dpapi → Type 0
IsPlatform none = Unit {0}
IsPlatform (some dpapi) = IsDpapi dpapi

-- What is encrypted decrypts.
decrypted-encrypted :
    (dpapi : Dpapi) (v p : Bytes)
    → is_empty p ≡ false
    → All (λ c. c < 256) p
    → dpapi.unprotect p ≡ some v
    → chosen_secret (some dpapi) (hex_encode p) [] ≡ v
unfolding hex_encode dpapi_unprotect
decrypted-encrypted dpapi v [] e h u = cc
decrypted-encrypted dpapi v (c ∷ p) e h u =
    ap (λ o. text_or_empty (unprotected dpapi o)) (hex_decode-hex_encode (c ∷ p) e h)
    ∙ ap text_or_empty u

secret_back :
    (dpapi : Dpapi) (v : Bytes) (o : Option Bytes)
    → IsDpapi dpapi
    → dpapi.protect v ≡ o
    → chosen_secret
        (some dpapi)
        (token_hex false (Option.map hex_encode o))
        (token_text v false (Option.map hex_encode o))
      ≡ v
secret_back dpapi v none h e = refl
secret_back dpapi v (some p) h e =
    decrypted-encrypted dpapi v p (h.nonempty v p e) (h.bytes v p e) (h.back v p e)

token_back :
    (platform : Option Dpapi) (v : Bytes)
    → IsPlatform platform
    → chosen_secret platform
        (token_hex (is_empty v) (encrypted platform v))
        (token_text v (is_empty v) (encrypted platform v))
      ≡ v
unfolding dpapi_protect
token_back platform [] h = refl
token_back none (c ∷ v) h = refl
token_back (some dpapi) (c ∷ v) h = secret_back dpapi (c ∷ v) (dpapi.protect (c ∷ v)) h refl

text_or_nonempty : (old v : Bytes) → is_empty v ≡ false → text_or old v ≡ v
text_or_nonempty old [] h = cc
text_or_nonempty old (c ∷ v) h = refl

-- What a settings file can hold: the numbers are `int32_t`, and the peer has a URL and a model.
pub record IsSettings (s : HostSettings) : Type 0 where
  pub port : InInt32 s.port
  pub num_ctx : InInt32 s.ollama_num_ctx
  pub url : is_empty s.ollama_url ≡ false
  pub model : is_empty s.ollama_model ≡ false

module _ (platform : Option Dpapi) (s : HostSettings) (p : IsPlatform platform)
    (g : IsSettings s) where
  token_read :
      decrypt_secret_field platform (save_text platform s) (codes "api_token") ≡ s.api_token
  unfolding decrypt_secret_field
  token_read =
      let b = is_empty s.api_token in
      let o = encrypted platform s.api_token in
      ap₂ (chosen_secret platform)
        (string_read platform s (codes "api_token_dpapi_hex") _ (named _ (cc) refl)
          (hex_looked_up s s.api_token b o))
        (string_read platform s (codes "api_token") _ (named _ (cc) refl)
          (plain_looked_up s s.api_token b o))
      ∙ token_back platform s.api_token p

  load_text_saved : (old : HostSettings) → load_text platform (save_text platform s) old ≡ some s
  unfolding load_text lookup_field same key
  load_text_saved old =
      rw
        (
          int_read platform s (codes "port") s.port (named _ (cc) refl) g.port refl,
          int_read platform s (codes "ollama_num_ctx") s.ollama_num_ctx (named _ (cc) refl)
              g.num_ctx refl,
          bool_read platform s (codes "enable_ai") s.enable_ai (named _ (cc) refl) refl,
          bool_read platform s (codes "enable_hardware_scan") s.enable_hardware_scan
              (named _ (cc) refl) refl,
          string_read platform s (codes "ollama_url") s.ollama_url (named _ (cc) refl) refl,
          string_read platform s (codes "ollama_model") s.ollama_model (named _ (cc) refl) refl,
          token_read,
          text_or_nonempty old.ollama_url s.ollama_url g.url,
          text_or_nonempty old.ollama_model s.ollama_model g.model,
          wrap32_lem s.port g.port,
          wrap32_lem s.ollama_num_ctx g.num_ctx,
        )
        refl

  -- Settings that are saved are loaded as they were, over any old ones: the token too, whether the system
  -- encrypts it, fails to, or has no encryption. The numbers are `int32_t`, the URL and the model are not empty.
  pub saved_settings_load :
      (file : Option Bytes) (old : HostSettings)
      → load_settings platform (save_settings platform true s file).1 old ≡ some (true, s)
  unfolding load_settings save_settings save_text
  saved_settings_load file old = ap (Option.map (λ t. (true, t))) (load_text_saved old)
