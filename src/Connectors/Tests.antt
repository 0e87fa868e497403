-- ===== src/Connectors/Tests.antt =====
-- The registry of src/net/connector.cpp on small inputs, and the theorems at concrete connectors.
use droidcli.Common.{
  true, false, ◌||◌, none, some, [], ◌∷◌, ◌≡◌, inr, refl, Bytes, codes, same, is_empty, is_some,
  if◌then◌else◌,
}
use droidcli.Json.Object.{render_object}
use droidcli.Json.Brackets.{depth, plain}
use droidcli.Connectors.{
  Connector, ConnectorRegistry, register_connector, unregister_connector, find_connector,
  build_connectors_json, parse_connector_from_json, accepted, rejected, launched_process,
}
use droidcli.Connectors.Registry.{
  IsRegistry, find-register_connector, operations-IsRegistry, find-unregister_connector,
}
use droidcli.Connectors.Requests.{connector_fields, parse_connector_lem}
use droidcli.Connectors.Listing.{build_connectors_json_unbalanced}

abbrev player : Connector
player = record {
  id = codes "player";
  kind = launched_process;
  base_url = [];
  launch_cmd = codes "run.exe";
  work_dir = codes "C:/work";
  capabilities = codes "play" ∷ [];
  enabled = false;
}

abbrev registry : ConnectorRegistry
registry = player ∷ []

registry-IsRegistry : IsRegistry registry
registry-IsRegistry = (refl, tt, tt)

find_register_example : find_connector (codes "player") (register_connector player []) ≡ (
    if is_empty player.id || is_empty player.kind
    then find_connector (codes "player") []
    else if same player.id (codes "player")
    then some player
    else find_connector (codes "player") [])
find_register_example = find-register_connector (codes "player") player []

operations_example :
    IsRegistry (register_connector player registry)
    × IsRegistry (unregister_connector (codes "player") registry).0
operations_example = operations-IsRegistry player (codes "player") registry registry-IsRegistry

find_unregister_example :
    (find_connector (codes "other") (unregister_connector (codes "player") registry).0 ≡ (
      if same (codes "player") (codes "other")
      then none
      else find_connector (codes "other") registry))
    × ((unregister_connector (codes "player") registry).1
        ≡ is_some (find_connector (codes "player") registry))
find_unregister_example =
    find-unregister_connector (codes "player") (codes "other") registry registry-IsRegistry

abbrev small_request : Bytes
small_request = codes "{\"id\":\"x\",\"kind\":\"http_peer\"}"

abbrev small : Connector
small = record {
  id = codes "x";
  kind = codes "http_peer";
  base_url = [];
  launch_cmd = [];
  work_dir = [];
  capabilities = [];
  enabled = true;
}

small_accepted : parse_connector_from_json small_request ≡ accepted small
unfolding parse_connector_from_json
small_accepted = refl

no_kind :
    parse_connector_from_json (codes "{\"id\":\"x\"}")
    ≡ rejected (codes "Connector requires id and kind.")
unfolding parse_connector_from_json
no_kind = refl

parse_connector_example :
    parse_connector_from_json (render_object (connector_fields player (codes "play")))
    ≡ accepted player
parse_connector_example = parse_connector_lem player (codes "play") refl (inr refl) refl refl

connectors_unbalanced_example :
    (depth plain 0 (build_connectors_json registry) ≡ none)
    × (depth plain 0 (b'{' ∷ build_connectors_json registry) ≡ some 0)
connectors_unbalanced_example = build_connectors_json_unbalanced registry
