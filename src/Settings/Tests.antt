-- ===== src/Settings/Tests.antt =====
-- Settings that are saved and loaded, with an encryption that marks its texts.
use mathlib.Core.Option
use droidcli.Common.{
  ◌<◌, Bool, true, false, Option, none, some, [], ◌∷◌, ◌≡◌, refl, sym, ap, subst, arith, Bytes,
  codes, All, all, ltb, is_empty, pos,
}
use droidcli.Settings.{HostSettings, Dpapi, load_settings, save_settings}
use droidcli.Settings.Saved.{IsDpapi, saved_settings_load}

abbrev marked_if : Bool → Bytes → Option Bytes
marked_if true v = some (90 ∷ v)
marked_if false v = none

abbrev are_bytes : Bytes → Bool
are_bytes v = all (λ c. ltb c 256) v

abbrev unmarked : Bytes → Option Bytes
unmarked [] = none
unmarked (c ∷ v) = some v

abbrev marker : Dpapi
marker = record { protect = λ v. marked_if (are_bytes v) v; unprotect = unmarked }

small_bytes : (v : Bytes) → are_bytes v ≡ true → All (λ c. c < 256) v
small_bytes [] h = tt
small_bytes (c ∷ v) h = (ground arith, small_bytes v (ground arith))

marked_back : (b : Bool) (v p : Bytes) → marked_if b v ≡ some p → unmarked p ≡ some v
marked_back true v p e = sym (ap unmarked (Option.some-injective _ _ e))
marked_back false v p e = cc

marked_nonempty : (b : Bool) (v p : Bytes) → marked_if b v ≡ some p → is_empty p ≡ false
marked_nonempty true v p e = sym (ap is_empty (Option.some-injective _ _ e))
marked_nonempty false v p e = cc

marked_bytes :
    (b : Bool) (v p : Bytes) → are_bytes v ≡ b → marked_if b v ≡ some p → All (λ c. c < 256) p
marked_bytes true v p h e =
    subst (All (λ c. c < 256)) (Option.some-injective _ _ e) (omega arith, small_bytes v h)
marked_bytes false v p h e = cc

marker-IsDpapi : IsDpapi marker
marker-IsDpapi = record {
  back = λ v p. marked_back (are_bytes v) v p;
  nonempty = λ v p. marked_nonempty (are_bytes v) v p;
  bytes = λ v p. marked_bytes (are_bytes v) v p refl;
}

abbrev defaults : HostSettings
defaults = record {
  port = pos 30080;
  enable_ai = true;
  enable_hardware_scan = false;
  ollama_url = codes "http://127.0.0.1:11434";
  ollama_model = codes "llama3.2";
  ollama_num_ctx = pos 32768;
  api_token = [];
}

abbrev changed : HostSettings
changed = record defaults { port = pos 8080; enable_ai = false; api_token = codes "a\"b" }

saved_settings_load_example :
    load_settings (some marker) (save_settings (some marker) true changed none).1 defaults
    ≡ some (true, changed)
saved_settings_load_example =
    saved_settings_load (some marker) changed marker-IsDpapi
      (record {
        port = (omega arith, omega arith);
        num_ctx = (omega arith, omega arith);
        url = refl;
        model = refl;
      })
      none defaults
