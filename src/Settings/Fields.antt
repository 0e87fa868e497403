-- ===== src/Settings/Fields.antt =====
-- The fields that a settings file is written with, and what the scanners read of them.
use droidcli.Common.{
  ◌<◌, ◌≤◌, Bool, true, false, Option, none, some, List, [], ◌∷◌, ◌≡◌, refl, ap, ◌∙◌, arith, Bytes,
  codes, All, is_empty, same, concat, ℤ, InInt64, pos_part, neg_part,
}
use droidcli.Json.{
  found, json_string_field, extract_json_string_field, extract_json_bool_field,
  extract_json_int_field,
}
use droidcli.Json.Skip.{IsName}
use droidcli.Json.Object.{
  Field, text, flag, number, key, value_text, render_field, render_object, concat-pieces,
  lookup_field, IsField,
}
use droidcli.Json.RoundTrip.{
  string_of, bool_of, extract_string-render_object, extract_bool-render_object,
}
use droidcli.Json.Number.{extract_int-render_object}
use droidcli.Json.Decimal.{print_int, print_int-all}
use droidcli.Settings.{
  HostSettings, Dpapi, encrypted, secret_field, serialize_secret_field, wrap32, save_text,
}

abbrev pub InInt32 : ℤ → Type 0
InInt32 z = (pos_part z < 2147483648) × (neg_part z ≤ 2147483648)

pub wrap32_lem : (z : ℤ) → InInt32 z → wrap32 z ≡ z
unfolding wrap32
wrap32_lem z h = ground arith

InInt32-InInt64 : (z : ℤ) → InInt32 z → InInt64 z
InInt32-InInt64 z (h, g) = (omega (arith, h), omega (arith, g))

-- The field of the token, by whether it is empty and what it is encrypted to.
abbrev token_field : Bytes → Bool → Option Bytes → Field
token_field v true o = text (codes "api_token") []
token_field v false none = text (codes "api_token") v
token_field v false (some hex) = text (codes "api_token_dpapi_hex") hex

token_field-IsField : (v : Bytes) (b : Bool) (o : Option Bytes) → IsField (token_field v b o)
token_field-IsField v true o = refl
token_field-IsField v false none = refl
token_field-IsField v false (some hex) = refl

secret_field-render :
    (v : Bytes) (b : Bool) (o : Option Bytes)
    → secret_field (codes "api_token") v b o ≡ render_field (token_field v b o)
unfolding json_string_field render_field value_text key
secret_field-render v true o = refl
secret_field-render v false none = refl
secret_field-render v false (some hex) = refl

abbrev fields : HostSettings → Field → List Field
fields s token =
    number (codes "port") (print_int s.port)
    ∷ flag (codes "enable_ai") s.enable_ai
    ∷ flag (codes "enable_hardware_scan") s.enable_hardware_scan
    ∷ text (codes "ollama_url") s.ollama_url
    ∷ text (codes "ollama_model") s.ollama_model
    ∷ number (codes "ollama_num_ctx") (print_int s.ollama_num_ctx)
    ∷ token
    ∷ []

fields-IsField : (s : HostSettings) (token : Field) → IsField token → All IsField (fields s token)
fields-IsField s token h =
    ((refl, print_int-all _), (refl, (refl, (refl, (refl, ((refl, print_int-all _), (h, tt)))))))

abbrev token_of : Option Dpapi → HostSettings → Field
token_of platform s =
    token_field s.api_token (is_empty s.api_token) (encrypted platform s.api_token)

abbrev pub saved : Option Dpapi → HostSettings → List Field
saved platform s = fields s (token_of platform s)

saved-IsField : (platform : Option Dpapi) (s : HostSettings) → All IsField (saved platform s)
saved-IsField platform s =
    fields-IsField s (token_of platform s)
      (token_field-IsField s.api_token (is_empty s.api_token) (encrypted platform s.api_token))

save_text-render :
    (platform : Option Dpapi) (s : HostSettings)
    → save_text platform s ≡ render_object (saved platform s)
unfolding save_text render_field value_text key serialize_secret_field
save_text-render platform s =
    ap
      (λ t. concat (
        codes "{"
        ∷ render_field (number (codes "port") (print_int s.port))
        ∷ codes ","
        ∷ render_field (flag (codes "enable_ai") s.enable_ai)
        ∷ codes ","
        ∷ render_field (flag (codes "enable_hardware_scan") s.enable_hardware_scan)
        ∷ codes ","
        ∷ render_field (text (codes "ollama_url") s.ollama_url)
        ∷ codes ","
        ∷ render_field (text (codes "ollama_model") s.ollama_model)
        ∷ codes ","
        ∷ render_field (number (codes "ollama_num_ctx") (print_int s.ollama_num_ctx))
        ∷ codes ","
        ∷ t
        ∷ codes "}"
        ∷ []))
      (secret_field-render s.api_token (is_empty s.api_token) (encrypted platform s.api_token))
    ∙ concat-pieces (saved platform s)

module _ (platform : Option Dpapi) (s : HostSettings) where
  abbrev saved_file : Bytes
  saved_file = save_text platform s

  pub string_read :
      (n v : Bytes)
      → IsName n
      → string_of (lookup_field n (saved platform s)) ≡ v
      → extract_json_string_field saved_file n 0 ≡ v
  string_read n v h e =
      ap (λ t. extract_json_string_field t n 0) (save_text-render platform s)
      ∙ extract_string-render_object n (saved platform s) h (saved-IsField platform s)
      ∙ e

  pub bool_read :
      (n : Bytes) (v : Bool)
      → IsName n
      → bool_of (lookup_field n (saved platform s)) ≡ some v
      → extract_json_bool_field saved_file n 0 ≡ some v
  bool_read n v h e =
      ap (λ t. extract_json_bool_field t n 0) (save_text-render platform s)
      ∙ extract_bool-render_object n (saved platform s) h (saved-IsField platform s)
      ∙ e

  pub int_read :
      (n : Bytes) (z : ℤ)
      → IsName n
      → InInt32 z
      → lookup_field n (saved platform s) ≡ some (number n (print_int z))
      → extract_json_int_field saved_file n 0 ≡ found z
  int_read n z h r e =
      ap (λ t. extract_json_int_field t n 0) (save_text-render platform s)
      ∙ extract_int-render_object n n z (saved platform s) h (saved-IsField platform s)
          (InInt32-InInt64 z r) e

-- The token's two fields, by what was written.
abbrev pub token_text : Bytes → Bool → Option Bytes → Bytes
token_text v true o = []
token_text v false none = v
token_text v false (some hex) = []

abbrev pub token_hex : Bool → Option Bytes → Bytes
token_hex true o = []
token_hex false none = []
token_hex false (some hex) = hex

pub plain_looked_up :
    (s : HostSettings) (v : Bytes) (b : Bool) (o : Option Bytes)
    → string_of (lookup_field (codes "api_token") (fields s (token_field v b o))) ≡ token_text v b o
unfolding lookup_field same key
plain_looked_up s v true o = refl
plain_looked_up s v false none = refl
plain_looked_up s v false (some hex) = refl

pub hex_looked_up :
    (s : HostSettings) (v : Bytes) (b : Bool) (o : Option Bytes)
    → string_of (lookup_field (codes "api_token_dpapi_hex") (fields s (token_field v b o)))
      ≡ token_hex b o
unfolding lookup_field same key
hex_looked_up s v true o = refl
hex_looked_up s v false none = refl
hex_looked_up s v false (some hex) = refl
