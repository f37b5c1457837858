-- ===== src/ResourceServer/Assignment.antt =====
-- Where each virtual node is recorded as placed, and which virtual node each physical node was given to.
use icecap.Base.{
  ℕ, ◌==◌, ◌≡◌, refl, sym, ap, ◌∙◌, inl, inr, if◌then◌else◌, ◌&&◌, Bool, true, false, Bool-cases,
  ==_iff, List, get_elem?, get_elem?-set, set, Option, some, none, Map, lookup, insert,
  lookup-insert,
}
use icecap.ResourceServer.{VirtualNode, Realm, ResourceServer}

-- The virtual node of a number, in an optional realm.
abbrev pub node_in : {S : Type 0} → Option (Realm S) → ℕ → Option VirtualNode
node_in none i = none
node_in (some realm) i = get_elem? realm.virtual_nodes i

abbrev pub place_of : Option VirtualNode → Option ℕ
place_of none = none
place_of (some n) = n.physical_node

abbrev pub joined : {A : Type 0} → Option (Option A) → Option A
joined none = none
joined (some a) = a

module _ {W P S : Type 0} where
  -- The physical node that a virtual node believes it runs on.
  abbrev pub home : ResourceServer W P S → ℕ → ℕ → Option ℕ
  home s realm_id i = place_of (node_in (lookup realm_id s.realms) i)

  -- The virtual node that a physical node was given to.
  abbrev pub guest : ResourceServer W P S → ℕ → Option (ℕ × ℕ)
  guest s physical_node = joined (get_elem? s.physical_nodes physical_node)

node_in-set :
    {S : Type 0} (realm : Realm S) (i j : ℕ) (n : VirtualNode) (x : Option ℕ)
    → get_elem? realm.virtual_nodes i ≡ some n
    → place_of (
        node_in
          (some (record realm {
            virtual_nodes = set realm.virtual_nodes i (record n { physical_node = x });
          }))
          j)
      ≡ (if i == j then x else place_of (node_in (some realm) j))
node_in-set realm i j n x e =
    rw (get_elem?-set realm.virtual_nodes i j n (record n { physical_node = x }) e)
      (by_test (i == j))
  where
    by_test :
        (b : Bool)
        → place_of
            (if b then some (record n { physical_node = x }) else get_elem? realm.virtual_nodes j)
          ≡ (if b then x else place_of (get_elem? realm.virtual_nodes j))
    by_test true = refl
    by_test false = refl

-- Placing a virtual node that exists changes where that node runs, and where no other does.
pub home-place :
    {S : Type 0} (realms : Map (Realm S)) (realm_id i realm_id' j : ℕ) (realm : Realm S)
    (n : VirtualNode) (x : Option ℕ)
    → lookup realm_id realms ≡ some realm
    → get_elem? realm.virtual_nodes i ≡ some n
    → place_of (
        node_in
          (lookup realm_id' (
            insert realm_id
              (record realm {
                virtual_nodes = set realm.virtual_nodes i (record n { physical_node = x });
              })
              realms))
          j)
      ≡ (if realm_id == realm_id' && i == j
          then x
          else place_of (node_in (lookup realm_id' realms) j))
home-place realms realm_id i realm_id' j realm n x e e' =
    rw
      (lookup-insert realms realm_id realm_id' (record realm {
        virtual_nodes = set realm.virtual_nodes i (record n { physical_node = x });
      }))
      (elim (Bool-cases (realm_id == realm_id')) [
        | inl same ↦
            let found : lookup realm_id' realms ≡ some realm =
              ap (λ k. lookup k realms) (sym ((==_iff realm_id realm_id').0 same)) ∙ e in
            rw (same, found) (node_in-set realm i j n x e')
        | inr other ↦ rw other refl
      ])

pub guest-set :
    (nodes : List (Option (ℕ × ℕ))) (p q : ℕ) (old x : Option (ℕ × ℕ))
    → get_elem? nodes p ≡ some old
    → joined (get_elem? (set nodes p x) q) ≡ (if p == q then x else joined (get_elem? nodes q))
guest-set nodes p q old x e = rw (get_elem?-set nodes p q old x e) (by_test (p == q))
  where
    by_test :
        (b : Bool)
        → joined (if b then some x else get_elem? nodes q)
          ≡ (if b then x else joined (get_elem? nodes q))
    by_test true = refl
    by_test false = refl
