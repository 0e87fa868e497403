-- ===== src/Settings.antt =====
-- cli/settings_store.cpp: the settings file. On Windows the token is encrypted by the system (`Dpapi`),
-- elsewhere there is no such thing. The messages to the error output are left out.
pub mod Hex
pub mod Fields
pub mod Saved
mod Tests
use mathlib.Core.Option
use droidcli.Common.{
  ℕ, ◌+◌, ◌-◌, ◌*◌, ◌/◌, ◌%◌, Bool, true, false, not, ◌&&◌, ◌||◌, Option, none, some, List, [], ◌∷◌,
  ◌++◌, Bytes, codes, concat, is_empty, ltb, leb, if◌then◌else◌, ℤ, pos, negsuc, pos_part, neg_part,
}
use droidcli.Json.{
  json_string_field, json_bool_field, extract_json_string_field, extract_json_bool_field,
  extract_json_int_field, IntField, missing, found, out_of_range,
}
use droidcli.Json.Decimal.{print_int}

-- `int32_t` numbers are integers in that range.
pub record HostSettings : Type 0 where
  pub port : ℤ
  pub enable_ai : Bool
  pub enable_hardware_scan : Bool
  pub ollama_url : Bytes
  pub ollama_model : Bytes
  pub ollama_num_ctx : ℤ
  pub api_token : Bytes

-- `CryptProtectData` and `CryptUnprotectData`, which may fail
pub record Dpapi : Type 0 where
  pub protect : Bytes → Option Bytes
  pub unprotect : Bytes → Option Bytes

abbrev pub hex_digit : ℕ → ℕ
hex_digit n = if ltb n 10 then b'0' + n else b'a' + (n - 10)

unfoldable pub hex_encode : Bytes → Bytes
hex_encode [] = []
hex_encode (c ∷ bytes) = hex_digit (c / 16) ∷ hex_digit (c % 16) ∷ hex_encode bytes

unfoldable pub nibble : ℕ → Option ℕ
nibble c =
    if leb b'0' c && leb c b'9'
    then some (c - b'0')
    else if leb b'a' c && leb c b'f'
    then some (c - b'a' + 10)
    else if leb b'A' c && leb c b'F'
    then some (c - b'A' + 10)
    else none

abbrev pub decoded_byte : Option ℕ → Option ℕ → Option Bytes → Option Bytes
decoded_byte (some high) (some low) (some rest) = some ((high * 16 + low) ∷ rest)
decoded_byte _ _ _ = none

-- The loop over pairs of digits; a text of odd length is refused.
unfoldable pub decode_pairs : Bytes → Option Bytes
unfolding nibble
decode_pairs [] = some []
decode_pairs (a ∷ []) = none
decode_pairs (a ∷ b ∷ s) = decoded_byte (nibble a) (nibble b) (decode_pairs s)

unfoldable pub hex_decode : Bytes → Option Bytes
unfolding decode_pairs
hex_decode [] = none
hex_decode (c ∷ s) = decode_pairs (c ∷ s)

unfoldable pub dpapi_protect : Dpapi → Bytes → Option Bytes
unfolding hex_encode
dpapi_protect dpapi plaintext = Option.map hex_encode (dpapi.protect plaintext)

abbrev pub unprotected : Dpapi → Option Bytes → Option Bytes
unprotected dpapi none = none
unprotected dpapi (some []) = none
unprotected dpapi (some (c ∷ bytes)) = dpapi.unprotect (c ∷ bytes)

unfoldable pub dpapi_unprotect : Dpapi → Bytes → Option Bytes
unfolding hex_decode
dpapi_unprotect dpapi hex = unprotected dpapi (hex_decode hex)

abbrev pub encrypted : Option Dpapi → Bytes → Option Bytes
encrypted none value = none
encrypted (some dpapi) value = dpapi_protect dpapi value

-- Whether the value is empty, and what it is encrypted to.
abbrev pub secret_field : Bytes → Bytes → Bool → Option Bytes → Bytes
secret_field field_name value true hex = json_string_field field_name []
secret_field field_name value false none = json_string_field field_name value
secret_field field_name value false (some hex) =
    json_string_field (field_name ++ codes "_dpapi_hex") hex

unfoldable pub serialize_secret_field : Option Dpapi → Bytes → Bytes → Bytes
unfolding json_string_field dpapi_protect
serialize_secret_field platform field_name value =
    secret_field field_name value (is_empty value) (encrypted platform value)

abbrev pub text_or_empty : Option Bytes → Bytes
text_or_empty none = []
text_or_empty (some s) = s

abbrev pub decrypted : Option Dpapi → Bytes → Bytes
decrypted none hex = []
decrypted (some dpapi) hex = text_or_empty (dpapi_unprotect dpapi hex)

abbrev pub chosen_secret : Option Dpapi → Bytes → Bytes → Bytes
chosen_secret platform [] plain = plain
chosen_secret platform (c ∷ hex) plain = decrypted platform (c ∷ hex)

unfoldable pub decrypt_secret_field : Option Dpapi → Bytes → Bytes → Bytes
unfolding extract_json_string_field dpapi_unprotect
decrypt_secret_field platform json field_name =
    chosen_secret platform (extract_json_string_field json (field_name ++ codes "_dpapi_hex") 0)
      (extract_json_string_field json field_name 0)

-- `static_cast<int32_t>`
unfoldable pub wrap32 : ℤ → ℤ
wrap32 z =
    let w = (pos_part z + (4294967296 - neg_part z % 4294967296)) % 4294967296 in
    if ltb w 2147483648 then pos w else negsuc (4294967296 - w - 1)

-- A member that a field of the file may replace; `none` where `std::stoll` throws.
abbrev pub number_or : ℤ → IntField → Option ℤ
number_or old missing = some old
number_or old (found z) = some (wrap32 z)
number_or old out_of_range = none

abbrev pub saved_flag_or : Bool → Option Bool → Bool
saved_flag_or old none = old
saved_flag_or old (some b) = b

abbrev pub text_or : Bytes → Bytes → Bytes
text_or old [] = old
text_or old (c ∷ s) = c ∷ s

abbrev pub with_numbers : HostSettings → Option ℤ → Option ℤ → Option HostSettings
with_numbers s (some port) (some num_ctx) =
    some (record s { port = port; ollama_num_ctx = num_ctx })
with_numbers s _ _ = none

-- What `load_settings` makes of a text: the return value and the settings that it leaves; `none` where an
-- exception leaves it.
unfoldable pub load_text : Option Dpapi → Bytes → HostSettings → Option HostSettings
unfolding extract_json_string_field extract_json_bool_field extract_json_int_field
    decrypt_secret_field wrap32
load_text platform json out =
    with_numbers
      (record out {
        enable_ai =
            saved_flag_or out.enable_ai (extract_json_bool_field json (codes "enable_ai") 0);
        enable_hardware_scan =
            saved_flag_or out.enable_hardware_scan
              (extract_json_bool_field json (codes "enable_hardware_scan") 0);
        ollama_url = text_or out.ollama_url (extract_json_string_field json (codes "ollama_url") 0);
        ollama_model =
            text_or out.ollama_model (extract_json_string_field json (codes "ollama_model") 0);
        api_token = decrypt_secret_field platform json (codes "api_token");
      })
      (number_or out.port (extract_json_int_field json (codes "port") 0))
      (number_or out.ollama_num_ctx (extract_json_int_field json (codes "ollama_num_ctx") 0))

-- The file, if it can be read.
unfoldable pub load_settings :
    Option Dpapi → Option Bytes → HostSettings → Option (Bool × HostSettings)
unfolding load_text
load_settings platform none out = some (false, out)
load_settings platform (some []) out = some (false, out)
load_settings platform (some (c ∷ json)) out =
    Option.map (λ s. (true, s)) (load_text platform (c ∷ json) out)

-- The text that `save_settings` writes.
unfoldable pub save_text : Option Dpapi → HostSettings → Bytes
unfolding json_string_field json_bool_field print_int serialize_secret_field
save_text platform settings = concat (
    codes "{"
    ∷ (codes "\"port\":" ++ print_int settings.port)
    ∷ codes ","
    ∷ json_bool_field (codes "enable_ai") settings.enable_ai
    ∷ codes ","
    ∷ json_bool_field (codes "enable_hardware_scan") settings.enable_hardware_scan
    ∷ codes ","
    ∷ json_string_field (codes "ollama_url") settings.ollama_url
    ∷ codes ","
    ∷ json_string_field (codes "ollama_model") settings.ollama_model
    ∷ codes ","
    ∷ (codes "\"ollama_num_ctx\":" ++ print_int settings.ollama_num_ctx)
    ∷ codes ","
    ∷ serialize_secret_field platform (codes "api_token") settings.api_token
    ∷ codes "}"
    ∷ [])

-- The return value, and the file afterwards; the file may not open for writing.
unfoldable pub save_settings :
    Option Dpapi → Bool → HostSettings → Option Bytes → Bool × Option Bytes
unfolding save_text
save_settings platform true settings file = (true, some (save_text platform settings))
save_settings platform false settings file = (false, file)
