-- ===== src/Connectors/Registry.antt =====
-- The registry of src/net/connector.cpp as a finite map from ids to connectors.
use droidcli.Common.{
  Bool, true, false, ◌||◌, none, some, [], ◌∷◌, ◌≡◌, ◌≢◌, refl, sym, subst, arith, Bytes, All, same,
  same_iff, is_empty, is_some, if◌then◌else◌, Bool-cases, inl, inr,
}
use droidcli.Connectors.{
  Connector, ConnectorRegistry, overwrite, register_connector, unregister_connector, find_connector,
}

find-overwrite :
    (j : Bytes) (c : Connector) (r : ConnectorRegistry)
    → find_connector j (overwrite c r) ≡ (if same c.id j then some c else find_connector j r)
unfolding find_connector overwrite
find-overwrite j c [] = refl
find-overwrite j c (e ∷ r) =
    ground (arith, find-overwrite j c r, same_iff e.id c.id, same_iff e.id j, same_iff c.id j)

-- Looking an id up after a registration finds the new connector under its id and the old one under any
-- other; a connector with no id or no kind is not registered.
pub find-register_connector :
    (j : Bytes) (c : Connector) (r : ConnectorRegistry)
    → find_connector j (register_connector c r) ≡ (
        if is_empty c.id || is_empty c.kind
        then find_connector j r
        else if same c.id j
        then some c
        else find_connector j r)
find-register_connector j c r = elim (Bool-cases (is_empty c.id || is_empty c.kind)) [
  | inl e ↦ unfold register_connector in rw e
  | inr e ↦ unfold register_connector in rw e (find-overwrite j c r)
]

-- No connector of the registry has that id.
abbrev pub Fresh : Bytes → ConnectorRegistry → Type 0
Fresh id = All (λ c. c.id ≢ id)

-- No two connectors share an id, and none has an empty id or kind.
abbrev pub IsRegistry : ConnectorRegistry → Type 0
IsRegistry [] = Unit
IsRegistry (c ∷ r) = (is_empty c.id || is_empty c.kind ≡ false) × Fresh c.id r × IsRegistry r

overwrite-Fresh :
    (id : Bytes) (c : Connector) (r : ConnectorRegistry)
    → c.id ≢ id
    → Fresh id r
    → Fresh id (overwrite c r)
unfolding overwrite
overwrite-Fresh id c [] d h = (d, tt)
overwrite-Fresh id c (e ∷ r) d (g, h) = elim (Bool-cases (same e.id c.id)) [
  | inl p ↦ rw p (d, h)
  | inr p ↦ rw p (g, overwrite-Fresh id c r d h)
]

overwrite-IsRegistry :
    (c : Connector) (r : ConnectorRegistry)
    → is_empty c.id || is_empty c.kind ≡ false
    → IsRegistry r
    → IsRegistry (overwrite c r)
unfolding overwrite
overwrite-IsRegistry c [] g h = (g, tt, tt)
overwrite-IsRegistry c (e ∷ r) g (k, f, h) = elim (Bool-cases (same e.id c.id)) [
  | inl p ↦ rw p (g, subst (λ id. Fresh id r) ((same_iff e.id c.id).0 p) f, h)
  | inr p ↦ rw p (
    k,
    overwrite-Fresh e.id c r (λ q. cc (p, (same_iff e.id c.id).1 (sym q))) f,
    overwrite-IsRegistry c r g h,
  )
]

erased-Fresh :
    (id j : Bytes) (r : ConnectorRegistry) → Fresh j r → Fresh j (unregister_connector id r).0
unfolding unregister_connector
erased-Fresh id j [] h = tt
erased-Fresh id j (e ∷ r) (g, h) = elim (Bool-cases (same e.id id)) [
  | inl p ↦ rw p h
  | inr p ↦ rw p (g, erased-Fresh id j r h)
]

erased-IsRegistry :
    (id : Bytes) (r : ConnectorRegistry) → IsRegistry r → IsRegistry (unregister_connector id r).0
unfolding unregister_connector
erased-IsRegistry id [] h = tt
erased-IsRegistry id (e ∷ r) (k, f, h) = elim (Bool-cases (same e.id id)) [
  | inl p ↦ rw p h
  | inr p ↦ rw p (k, erased-Fresh id e.id r f, erased-IsRegistry id r h)
]

-- Registering and unregistering keep the ids distinct and the connectors complete.
pub operations-IsRegistry :
    (c : Connector) (id : Bytes) (r : ConnectorRegistry)
    → IsRegistry r
    → IsRegistry (register_connector c r) × IsRegistry (unregister_connector id r).0
operations-IsRegistry c id r h = (
  elim (Bool-cases (is_empty c.id || is_empty c.kind)) [
    | inl e ↦ unfold register_connector in rw e h
    | inr e ↦ unfold register_connector in rw e (overwrite-IsRegistry c r e h)
  ],
  erased-IsRegistry id r h,
)

find-Fresh :
    (id j : Bytes) (r : ConnectorRegistry)
    → same id j ≡ true
    → Fresh id r
    → find_connector j r ≡ none
unfolding find_connector
find-Fresh id j [] p h = refl
find-Fresh id j (e ∷ r) p (g, h) =
    ground (arith, find-Fresh id j r p h, same_iff e.id j, same_iff id j)

erase_here :
    (id : Bytes) (e : Connector) (r : ConnectorRegistry)
    → same e.id id ≡ true
    → unregister_connector id (e ∷ r) ≡ (r, true)
unfolding unregister_connector
erase_here id e r p = rw p

erase_later :
    (id : Bytes) (e : Connector) (r : ConnectorRegistry)
    → same e.id id ≡ false
    → unregister_connector id (e ∷ r)
      ≡ (e ∷ (unregister_connector id r).0, (unregister_connector id r).1)
unfolding unregister_connector
erase_later id e r p = rw p

later :
    (id j : Bytes) (e : Connector) (r : ConnectorRegistry) (s : ConnectorRegistry × Bool)
    → same e.id id ≡ false
    → (find_connector j s.0 ≡ (if same id j then none else find_connector j r))
      × (s.1 ≡ is_some (find_connector id r))
    → (find_connector j (e ∷ s.0) ≡ (if same id j then none else find_connector j (e ∷ r)))
      × (s.1 ≡ is_some (find_connector id (e ∷ r)))
unfolding find_connector
later id j e r s p (h, g) =
    (ground (arith, h, same_iff e.id id, same_iff id j, same_iff e.id j), rw p g)

-- In a registry with distinct ids, unregistering removes exactly the connector of that id, and reports
-- whether there was one.
pub find-unregister_connector :
    (id j : Bytes) (r : ConnectorRegistry)
    → IsRegistry r
    → (find_connector j (unregister_connector id r).0
        ≡ (if same id j then none else find_connector j r))
      × ((unregister_connector id r).1 ≡ is_some (find_connector id r))
find-unregister_connector id j [] h =
    unfold unregister_connector find_connector in (ground arith, refl)
find-unregister_connector id j (e ∷ r) (k, f, h) = elim (Bool-cases (same e.id id)) [
  | inl p ↦ rw (erase_here id e r p) (
      unfold find_connector in
      (
        ground (arith, find-Fresh e.id j r, f, p, same_iff e.id id, same_iff id j, same_iff e.id j),
        rw p,
      ))
  | inr p ↦
      let rest = find-unregister_connector id j r h in
      rw (erase_later id e r p) (later id j e r (unregister_connector id r) p rest)
]
