-- ===== src/Connectors/Requests.antt =====
-- `parse_connector_from_json` of src/net/connector.cpp, and what registering its result does.
use droidcli.Common.{
  Bool, false, not, ◌&&◌, ◌||◌, Option, some, List, [], ◌∷◌, ◌≡◌, ◌⊎◌, inl, inr, refl, ◌∙◌, arith,
  Bytes, codes, All, same, same_iff, same_refl, is_empty, Bool-cases,
}
use droidcli.Json.{extract_json_string_field, extract_json_bool_field}
use droidcli.Json.Skip.{IsName, named}
use droidcli.Json.Object.{Field, text, flag, render_object, lookup_field, IsField}
use droidcli.Json.RoundTrip.{string_of, extract_string-render_object, extract_bool-render_object}
use droidcli.Connectors.{
  Connector, ConnectorRegistry, accepted, http_peer, launched_process, checked_connector,
  parse_connector_from_json, register_connector, find_connector,
}
use droidcli.Connectors.Registry.{find-register_connector}

-- The two kinds that the parser lets through.
abbrev pub KnownKind : Bytes → Type 0
KnownKind kind = (kind ≡ http_peer) ⊎ (kind ≡ launched_process)

kind_known :
    (k : Bytes) → (not (same k http_peer) && not (same k launched_process)) ≡ false → KnownKind k
kind_known k h = elim (Bool-cases (same k http_peer)) [
  | inl e ↦ inl ((same_iff k http_peer).0 e)
  | inr e ↦ inr ((same_iff k launched_process).0 (ground arith))
]

checked_connector-accepted :
    (i k b l w : Bytes) (e : Option Bool) (p : Bytes) (c : Connector)
    → checked_connector i k b l w e p ≡ accepted c
    → (is_empty c.id || is_empty c.kind ≡ false)
      × ((not (same c.kind http_peer) && not (same c.kind launched_process)) ≡ false)
unfolding checked_connector
checked_connector-accepted i k b l w e p c h = (ground arith, ground arith)

-- Whatever text a connector was parsed from, its kind is one of the two that are known, and
-- registering it stores it: it is found under its id.
pub parsed_connector_registers :
    (json : Bytes) (c : Connector) (r : ConnectorRegistry)
    → parse_connector_from_json json ≡ accepted c
    → KnownKind c.kind × (find_connector c.id (register_connector c r) ≡ some c)
unfolding parse_connector_from_json
parsed_connector_registers json c r h =
    let (complete, kind) =
      checked_connector-accepted (extract_json_string_field json (codes "id") 0)
        (extract_json_string_field json (codes "kind") 0)
        (extract_json_string_field json (codes "base_url") 0)
        (extract_json_string_field json (codes "launch_cmd") 0)
        (extract_json_string_field json (codes "work_dir") 0)
        (extract_json_bool_field json (codes "enabled") 0)
        (extract_json_string_field json (codes "capabilities") 0) c h in
    (kind_known c.kind kind, rw (find-register_connector c.id c r, complete, same_refl c.id))

-- A request with every field that the parser reads.
abbrev pub connector_fields : Connector → Bytes → List Field
connector_fields c capability =
    text (codes "id") c.id
    ∷ text (codes "kind") c.kind
    ∷ text (codes "base_url") c.base_url
    ∷ text (codes "launch_cmd") c.launch_cmd
    ∷ text (codes "work_dir") c.work_dir
    ∷ flag (codes "enabled") c.enabled
    ∷ text (codes "capabilities") capability
    ∷ []

module _ (c : Connector) (p : Bytes) where
  abbrev request : Bytes
  request = render_object (connector_fields c p)

  fields-IsField : All IsField (connector_fields c p)
  fields-IsField = (refl, (refl, (refl, (refl, (refl, (refl, (refl, tt)))))))

  string_field :
      (n v : Bytes)
      → IsName n
      → string_of (lookup_field n (connector_fields c p)) ≡ v
      → extract_json_string_field request n 0 ≡ v
  string_field n v h e = extract_string-render_object n (connector_fields c p) h fields-IsField ∙ e

  enabled_field : extract_json_bool_field request (codes "enabled") 0 ≡ some c.enabled
  enabled_field =
      extract_bool-render_object (codes "enabled") (connector_fields c p) (named _ (cc) refl)
        fields-IsField
      ∙ (unfold lookup_field same in refl)

checked_connector_lem :
    (c : Connector) (p : Bytes)
    → is_empty c.id || is_empty c.kind ≡ false
    → KnownKind c.kind
    → is_empty p ≡ false
    → c.capabilities ≡ p ∷ []
    → checked_connector c.id c.kind c.base_url c.launch_cmd c.work_dir (some c.enabled) p
      ≡ accepted c
checked_connector_lem c p complete (inl k) full e =
    unfold checked_connector in rw (complete, k) (ground arith)
checked_connector_lem c p complete (inr k) full e =
    unfold checked_connector in rw (complete, k) (ground arith)

-- A complete connector with one capability, of a known kind, is read back as it was from the object
-- that holds its fields.
pub parse_connector_lem :
    (c : Connector) (capability : Bytes)
    → is_empty c.id || is_empty c.kind ≡ false
    → KnownKind c.kind
    → is_empty capability ≡ false
    → c.capabilities ≡ capability ∷ []
    → parse_connector_from_json (render_object (connector_fields c capability)) ≡ accepted c
unfolding parse_connector_from_json lookup_field same
parse_connector_lem c p complete kind full e =
    (λ i.
      checked_connector (string_field c p (codes "id") c.id (named _ (cc) refl) refl i)
        (string_field c p (codes "kind") c.kind (named _ (cc) refl) refl i)
        (string_field c p (codes "base_url") c.base_url (named _ (cc) refl) refl i)
        (string_field c p (codes "launch_cmd") c.launch_cmd (named _ (cc) refl) refl i)
        (string_field c p (codes "work_dir") c.work_dir (named _ (cc) refl) refl i)
        (enabled_field c p i)
        (string_field c p (codes "capabilities") p (named _ (cc) refl) refl i))
    ∙ checked_connector_lem c p complete kind full e
