-- ===== src/Connectors/Listing.antt =====
-- `build_connectors_json` of src/net/connector.cpp: the list of the connectors as one text.
use droidcli.Common.{
  ℕ, suc, Bool, true, none, some, List, [], ◌∷◌, ◌++◌, append_assoc, ◌≡◌, refl, ◌∙◌, ap, Bytes,
  codes, concat, comma_separated, map, All, all,
}
use droidcli.Json.{quote, json_string_field, json_bool_field, escape_json_string}
use droidcli.Json.Object.{text, flag, key, value_text, render_field}
use droidcli.Json.Skip.{name_char}
use droidcli.Json.Brackets.{
  depth, plain, depth_comma, depth_open, depth_quoted, depth-comma_separated, depth-render_field,
}
use droidcli.Connectors.{
  Connector, ConnectorRegistry, quoted, connector_json, build_connectors_json,
}

depth-quoted : (d : ℕ) (v rest : Bytes) → depth plain d (quoted v ++ rest) ≡ depth plain d rest
depth-quoted d v rest =
    ap (λ s. depth plain d (quote ∷ s)) (append_assoc (escape_json_string v) (codes "\"") rest)
    ∙ depth_quoted d v rest

-- A piece of text that changes no depth.
abbrev Neutral : ℕ → Bytes → Type 0
Neutral d x = (rest : Bytes) → depth plain d (x ++ rest) ≡ depth plain d rest

depth-concat :
    (d : ℕ) (xs ys : List Bytes) (rest : Bytes)
    → All (Neutral d) xs
    → depth plain d (concat (xs ++ ys) ++ rest) ≡ depth plain d (concat ys ++ rest)
depth-concat d [] ys rest h = refl
depth-concat d (x ∷ xs) ys rest (n, h) =
    ap (depth plain d) (append_assoc x (concat (xs ++ ys)) rest)
    ∙ n (concat (xs ++ ys) ++ rest)
    ∙ depth-concat d xs ys rest h

string_Neutral : (d : ℕ) (k v : Bytes) → all name_char k ≡ true → Neutral d (json_string_field k v)
string_Neutral d k v h rest =
    unfold json_string_field render_field value_text key in depth-render_field d (text k v) rest h

bool_Neutral :
    (d : ℕ) (k : Bytes) (b : Bool) → all name_char k ≡ true → Neutral d (json_bool_field k b)
bool_Neutral d k b h rest =
    unfold json_bool_field render_field value_text key in depth-render_field d (flag k b) rest h

comma_Neutral : (d : ℕ) → Neutral d (codes ",")
comma_Neutral d rest = depth_comma d rest

-- The pieces of a connector between its brace and its capabilities.
abbrev inner : Connector → List Bytes
inner c =
    json_string_field (codes "id") c.id
    ∷ codes ","
    ∷ json_string_field (codes "kind") c.kind
    ∷ codes ","
    ∷ json_string_field (codes "base_url") c.base_url
    ∷ codes ","
    ∷ json_string_field (codes "launch_cmd") c.launch_cmd
    ∷ codes ","
    ∷ json_string_field (codes "work_dir") c.work_dir
    ∷ codes ","
    ∷ json_bool_field (codes "enabled") c.enabled
    ∷ codes ","
    ∷ []

inner-Neutral : (d : ℕ) (c : Connector) → All (Neutral d) (inner c)
inner-Neutral d c = (
  string_Neutral d _ _ refl,
  (
    comma_Neutral d,
    (
      string_Neutral d _ _ refl,
      (
        comma_Neutral d,
        (
          string_Neutral d _ _ refl,
          (
            comma_Neutral d,
            (
              string_Neutral d _ _ refl,
              (
                comma_Neutral d,
                (
                  string_Neutral d _ _ refl,
                  (comma_Neutral d, (bool_Neutral d _ _ refl, (comma_Neutral d, tt))),
                ),
              ),
            ),
          ),
        ),
      ),
    ),
  ),
)

abbrev capability_list : Connector → List Bytes
capability_list c =
    codes "\"capabilities\":[" ∷ comma_separated (map quoted c.capabilities) ∷ codes "]}" ∷ []

depth-capability_list :
    (d : ℕ) (c : Connector) (rest : Bytes)
    → depth plain (suc d) (concat (capability_list c) ++ rest) ≡ depth plain d rest
depth-capability_list d c rest =
    opened
    ∙ ap (depth plain (suc (suc d)))
        (append_assoc (comma_separated (map quoted c.capabilities)) (codes "]}" ++ []) rest)
    ∙ depth-comma_separated (suc (suc d)) quoted (depth-quoted (suc (suc d))) c.capabilities _
    ∙ closed
  where
    opened :
        depth plain (suc d) (concat (capability_list c) ++ rest)
        ≡ depth plain
            (suc (suc d))
            ((comma_separated (map quoted c.capabilities) ++ (codes "]}" ++ [])) ++ rest)
    opened = unfold depth in refl

    closed : depth plain (suc (suc d)) ((codes "]}" ++ []) ++ rest) ≡ depth plain d rest
    closed = unfold depth in refl

depth-connector :
    (d : ℕ) (c : Connector) (rest : Bytes)
    → depth plain d (connector_json c ++ rest) ≡ depth plain d rest
depth-connector d c rest =
    opened
    ∙ depth-concat (suc d) (inner c) (capability_list c) rest (inner-Neutral (suc d) c)
    ∙ depth-capability_list d c rest
  where
    opened :
        depth plain d (connector_json c ++ rest)
        ≡ depth plain (suc d) (concat (inner c ++ capability_list c) ++ rest)
    opened = unfold connector_json in depth_open d _

opening :
    (r : ConnectorRegistry)
    → depth plain 0 (build_connectors_json r)
      ≡ depth plain 1 (comma_separated (map connector_json r) ++ codes "]}")
unfolding build_connectors_json depth
opening r = refl

opening_behind_brace :
    (r : ConnectorRegistry)
    → depth plain 0 (b'{' ∷ build_connectors_json r)
      ≡ depth plain 2 (comma_separated (map connector_json r) ++ codes "]}")
unfolding build_connectors_json depth
opening_behind_brace r = refl

closing : (depth plain 1 (codes "]}") ≡ none) × (depth plain 2 (codes "]}") ≡ some 0)
unfolding depth
closing = (refl, refl)

-- The list of the connectors is never a JSON text: it closes a brace that it has not opened, whatever
-- the connectors are. With an opening brace in front it would close what it opens.
pub build_connectors_json_unbalanced :
    (r : ConnectorRegistry)
    → (depth plain 0 (build_connectors_json r) ≡ none)
      × (depth plain 0 (b'{' ∷ build_connectors_json r) ≡ some 0)
build_connectors_json_unbalanced r = (
  opening r ∙ depth-comma_separated 1 connector_json (depth-connector 1) r (codes "]}") ∙ closing.0,
  opening_behind_brace r
      ∙ depth-comma_separated 2 connector_json (depth-connector 2) r (codes "]}")
      ∙ closing.1,
)
