-- ===== src/Connectors.antt =====
-- src/net/connector.hpp and src/net/connector.cpp: the registry of connectors, the JSON that lists it
-- and the requests that fill it.
pub mod Registry
pub mod Requests
pub mod Listing
mod Tests
use droidcli.Common.{
  Bool, true, false, not, ◌&&◌, ◌||◌, Option, none, some, List, [], ◌∷◌, ◌++◌, Bytes, codes, concat,
  comma_separated, same, is_empty, if◌then◌else◌, map,
}
use droidcli.Json.{
  escape_json_string, json_string_field, json_bool_field, extract_json_string_field,
  extract_json_bool_field,
}

pub record Connector : Type 0 where
  pub id : Bytes
  pub kind : Bytes
  pub base_url : Bytes
  pub launch_cmd : Bytes
  pub work_dir : Bytes
  pub capabilities : List Bytes
  pub enabled : Bool

abbrev pub ConnectorRegistry : Type 0
ConnectorRegistry = List Connector

-- Overwrite the first connector with that id, or append.
unfoldable pub overwrite : Connector → ConnectorRegistry → ConnectorRegistry
unfolding same
overwrite c [] = c ∷ []
overwrite c (e ∷ r) = if same e.id c.id then c ∷ r else e ∷ overwrite c r

unfoldable pub register_connector : Connector → ConnectorRegistry → ConnectorRegistry
unfolding overwrite
register_connector c r = if is_empty c.id || is_empty c.kind then r else overwrite c r

unfoldable pub unregister_connector : Bytes → ConnectorRegistry → ConnectorRegistry × Bool
unfolding same
unregister_connector id [] = ([], false)
unregister_connector id (e ∷ r) =
    let (rest, erased) = unregister_connector id r in
    if same e.id id then (r, true) else (e ∷ rest, erased)

unfoldable pub find_connector : Bytes → ConnectorRegistry → Option Connector
unfolding same
find_connector id [] = none
find_connector id (e ∷ r) = if same e.id id then some e else find_connector id r

abbrev pub quoted : Bytes → Bytes
quoted s = b'"' ∷ (escape_json_string s ++ codes "\"")

-- one connector of `build_connectors_json`
unfoldable pub connector_json : Connector → Bytes
unfolding json_string_field json_bool_field comma_separated
connector_json c = concat (
    codes "{"
    ∷ json_string_field (codes "id") c.id
    ∷ codes ","
    ∷ json_string_field (codes "kind") c.kind
    ∷ codes ","
    ∷ json_string_field (codes "base_url") c.base_url
    ∷ codes ","
    ∷ json_string_field (codes "launch_cmd") c.launch_cmd
    ∷ codes ","
    ∷ json_string_field (codes "work_dir") c.work_dir
    ∷ codes ","
    ∷ json_bool_field (codes "enabled") c.enabled
    ∷ codes ","
    ∷ codes "\"capabilities\":["
    ∷ comma_separated (map quoted c.capabilities)
    ∷ codes "]}"
    ∷ [])

unfoldable pub build_connectors_json : ConnectorRegistry → Bytes
unfolding connector_json
build_connectors_json r = concat (
    json_bool_field (codes "ok") true
    ∷ codes ",\"connectors\":["
    ∷ comma_separated (map connector_json r)
    ∷ codes "]}"
    ∷ [])

-- What `parse_connector_from_json` returns.
pub data ParsedConnector : Type 0 where
  accepted : Connector → ParsedConnector
  rejected : Bytes → ParsedConnector

abbrev pub http_peer : Bytes
http_peer = codes "http_peer"

abbrev pub launched_process : Bytes
launched_process = codes "launched_process"

abbrev pub flag_or : Bool → Option Bool → Bool
flag_or b none = b
flag_or b (some c) = c

-- The checks, and the connector built from what the scanners read.
unfoldable pub checked_connector :
    Bytes → Bytes → Bytes → Bytes → Bytes → Option Bool → Bytes → ParsedConnector
unfolding same
checked_connector id kind base_url launch_cmd work_dir enabled capability =
    if is_empty id || is_empty kind
    then rejected (codes "Connector requires id and kind.")
    else if not (same kind http_peer) && not (same kind launched_process)
    then rejected (codes "Connector kind must be http_peer or launched_process.")
    else accepted (record {
      id = id;
      kind = kind;
      base_url = base_url;
      launch_cmd = launch_cmd;
      work_dir = work_dir;
      capabilities = if is_empty capability then [] else capability ∷ [];
      enabled = flag_or true enabled;
    })

unfoldable pub parse_connector_from_json : Bytes → ParsedConnector
unfolding checked_connector extract_json_string_field extract_json_bool_field
parse_connector_from_json json =
    checked_connector (extract_json_string_field json (codes "id") 0)
      (extract_json_string_field json (codes "kind") 0)
      (extract_json_string_field json (codes "base_url") 0)
      (extract_json_string_field json (codes "launch_cmd") 0)
      (extract_json_string_field json (codes "work_dir") 0)
      (extract_json_bool_field json (codes "enabled") 0)
      (extract_json_string_field json (codes "capabilities") 0)
