-- ===== src/Ai/Fuel.antt =====
-- src/ai/openai_compat_client.cpp: the loop over the elements of an array ends.
use droidcli.Common.{ℕ, true, false, List, [], ◌∷◌, Bytes, ◌==◌}
use droidcli.Ai.Response.{take_object, objects}

-- One round of the loop, from the first byte that is no separator.
unfoldable round : ℕ → Bytes → List Bytes
unfolding objects take_object
round f [] = []
round f (c ∷ r) = elim (c == b'{') [
  | false ↦ []
  | true ↦ let o = take_object 0 (c ∷ r) in o.0 ∷ objects f o.1
]
