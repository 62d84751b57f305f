-- ===== src/Mapping/Consistent.antt =====
-- When the PCI index agrees with the mappings.
use aws_multi_eni_controller.Prelude.{
  String, none, some, ◌≡◌, ◌≢◌, ◌⊎◌, inl, inr, sym, ap, ◌∙◌, eq_iff, arith, Option-cases,
}
use mathlib.Core.Option.{some-injective, none-ne-some}
use aws_multi_eni_controller.Prelude.Maps.{
  Dict, lookup, insert, delete, lookup-insert, lookup-delete,
}
use aws_multi_eni_controller.Mapping.Store.{
  InterfaceMapping, Store, index, unindex, put, take_out, get_mapping_by_eni_id,
  get_mapping_by_pci_address, File, add_mapping, remove_mapping,
}
use aws_multi_eni_controller.Mapping.Lookup.{
  get_mapping_by_pci_address-some, get_mapping_by_pci_address-none, lookup-same,
}

-- Each entry of the PCI index leads to a mapping with that address, and each mapping with an address
-- is in the index.
pub record IsIndexed (s : Store) : Type 0 where
  pub no_empty : lookup "" s.pci_map ≡ none
  pub leads :
      (pci eni : String)
      → lookup pci s.pci_map ≡ some eni
      → (m : InterfaceMapping) × (lookup eni s.mappings ≡ some m) × (m.pci_address ≡ pci)
  pub covers :
      (eni : String) (m : InterfaceMapping)
      → lookup eni s.mappings ≡ some m
      → m.pci_address ≢ ""
      → lookup m.pci_address s.pci_map ≡ some eni

index-cases :
    (k eni j e : String) (m : Dict String)
    → lookup j (index k eni m) ≡ some e
    → ((k ≡ j) × (eni ≡ e)) ⊎ (lookup j m ≡ some e)
index-cases k eni j e m h =
    ground (arith, eq_iff k "", eq_iff k j, lookup-insert k j eni m, some-injective eni e)

insert-other :
    {V : Type 0} (k j : String) (v w : V) (m : Dict V)
    → lookup k m ≡ none
    → lookup j m ≡ some w
    → lookup j (insert k v m) ≡ some w
insert-other k j v w m h g = ground (arith, eq_iff k j, lookup-insert k j v m)

put-leads_in :
    (m : InterfaceMapping) (s : Store) (pci eni : String)
    → IsIndexed s
    → lookup m.eni_id s.mappings ≡ none
    → ((m.pci_address ≡ pci) × (m.eni_id ≡ eni)) ⊎ (lookup pci s.pci_map ≡ some eni)
    → (n : InterfaceMapping) × (lookup eni (insert m.eni_id m s.mappings) ≡ some n)
      × (n.pci_address ≡ pci)
put-leads_in m s pci eni v h (inl e) = (
  m,
  ap (λ k. lookup k (insert m.eni_id m s.mappings)) (sym e.1) ∙ lookup-same m.eni_id m s.mappings,
  e.0,
)
put-leads_in m s pci eni v h (inr l) =
    let found = v.leads pci eni l in
    (found.0, insert-other m.eni_id eni m found.0 s.mappings h found.1, found.2)

put-leads :
    (m : InterfaceMapping) (s : Store)
    → IsIndexed s
    → lookup m.eni_id s.mappings ≡ none
    → (pci eni : String) → lookup pci (put m s).pci_map ≡ some eni
    → (n : InterfaceMapping) × (lookup eni (put m s).mappings ≡ some n) × (n.pci_address ≡ pci)
unfolding put
put-leads m s v h pci eni l =
    put-leads_in m s pci eni v h (index-cases m.pci_address m.eni_id pci eni s.pci_map l)

put-covers :
    (m : InterfaceMapping) (s : Store)
    → IsIndexed s
    → lookup m.pci_address s.pci_map ≡ none
    → (eni : String) (n : InterfaceMapping) → lookup eni (put m s).mappings ≡ some n
    → n.pci_address ≢ ""
    → lookup n.pci_address (put m s).pci_map ≡ some eni
unfolding put
put-covers m s v h eni n l e = ground (
  arith,
  eq_iff m.eni_id eni,
  eq_iff m.pci_address "",
  eq_iff m.pci_address n.pci_address,
  lookup-insert m.eni_id eni m s.mappings,
  lookup-insert m.pci_address n.pci_address m.eni_id s.pci_map,
  v.covers eni n,
)

found_is_stored :
    (pci : String) (s : Store) (m : InterfaceMapping)
    → IsIndexed s
    → get_mapping_by_pci_address pci s ≡ some m
    → (eni : String) × (lookup eni s.mappings ≡ some m) × (m.pci_address ≡ pci)
unfolding get_mapping_by_pci_address
found_is_stored pci s m v h =
    elim (Option-cases (lookup pci s.pci_map))
      as (λ x. (eni : String) × (lookup eni s.mappings ≡ some m) × (m.pci_address ≡ pci)) [
        | inl e ↦ absurd (none-ne-some m (sym (get_mapping_by_pci_address-none pci s e) ∙ h))
        | inr (eni, e) ↦
            let found = v.leads pci eni e in
            let g = sym (get_mapping_by_pci_address-some pci eni s e) ∙ h in
            let same = some-injective _ _ (sym found.1 ∙ g) in
            (eni, g, ap (λ n. n.pci_address) (sym same) ∙ found.2)
      ]

no_empty-index :
    (k e : String) (m : Dict String) → lookup "" m ≡ none → lookup "" (index k e m) ≡ none
no_empty-index k e m h = ground (arith, eq_iff k "", lookup-insert k "" e m)

unindex-some :
    (k j e : String) (m : Dict String)
    → lookup j (unindex k m) ≡ some e
    → (lookup j m ≡ some e) × ((k ≡ "") ⊎ (k ≢ j))
unindex-some k j e m h = ground (arith, eq_iff k "", eq_iff k j, lookup-delete k j m)

take_out-leads_in :
    (m : InterfaceMapping) (eni : String) (s : Store) (pci e : String)
    → IsIndexed s
    → lookup eni s.mappings ≡ some m
    → (lookup pci s.pci_map ≡ some e) × ((m.pci_address ≡ "") ⊎ (m.pci_address ≢ pci))
    → (n : InterfaceMapping) × (lookup e (delete eni s.mappings) ≡ some n) × (n.pci_address ≡ pci)
take_out-leads_in m eni s pci e v h l =
    let found = v.leads pci e l.0 in
    (
      found.0,
      ground (
        arith,
        eq_iff eni e,
        lookup-delete eni e s.mappings,
        found.1,
        found.2,
        h,
        l,
        v.no_empty,
        some-injective m found.0,
      ),
      found.2,
    )

take_out-covers :
    (m : InterfaceMapping) (eni : String) (s : Store)
    → IsIndexed s
    → lookup eni s.mappings ≡ some m
    → (e : String) (n : InterfaceMapping) → lookup e (delete eni s.mappings) ≡ some n
    → n.pci_address ≢ ""
    → lookup n.pci_address (unindex m.pci_address s.pci_map) ≡ some e
take_out-covers m eni s v h e n l k = ground (
  arith,
  eq_iff eni e,
  eq_iff m.pci_address "",
  eq_iff m.pci_address n.pci_address,
  lookup-delete eni e s.mappings,
  lookup-delete m.pci_address n.pci_address s.pci_map,
  v.covers e n,
  v.covers eni m h,
  some-injective eni e,
)

take_out-IsIndexed :
    (m : InterfaceMapping) (eni : String) (s : Store)
    → IsIndexed s
    → lookup eni s.mappings ≡ some m
    → IsIndexed (take_out m eni s)
unfolding take_out
take_out-IsIndexed m eni s v h = record {
  no_empty =
      ground (arith, eq_iff m.pci_address "", lookup-delete m.pci_address "" s.pci_map, v.no_empty);
  leads =
      λ pci e l. take_out-leads_in m eni s pci e v h (unindex-some m.pci_address pci e s.pci_map l);
  covers = take_out-covers m eni s v h;
}

-- In an indexed store the lookup by PCI address answers with a mapping exactly when that mapping is
-- stored and has the address, for an address that is not empty.
pub get_mapping_by_pci_address_lem :
    (pci : String) (s : Store) (m : InterfaceMapping)
    → IsIndexed s
    → pci ≢ ""
    → (get_mapping_by_pci_address pci s ≡ some m
        → (eni : String) × (get_mapping_by_eni_id eni s ≡ some m) × (m.pci_address ≡ pci))
      × ((eni : String)
          → get_mapping_by_eni_id eni s ≡ some m
          → m.pci_address ≡ pci
          → get_mapping_by_pci_address pci s ≡ some m)
unfolding get_mapping_by_eni_id get_mapping_by_pci_address
get_mapping_by_pci_address_lem pci s m v n = (
  found_is_stored pci s m v,
  λ eni h e.
      get_mapping_by_pci_address-some pci eni s
        (ap (λ k. lookup k s.pci_map) (sym e) ∙ v.covers eni m h (λ z. n (sym e ∙ z)))
      ∙ h,
)

module _ {W : Type 0} (f : File W) where
  -- Adding a mapping under a new ENI ID and with a PCI address that is in no use keeps the index right.
  pub add_mapping-IsIndexed :
      (m : InterfaceMapping) (s : Store) (w : W)
      → IsIndexed s
      → get_mapping_by_eni_id m.eni_id s ≡ none
      → lookup m.pci_address s.pci_map ≡ none
      → IsIndexed (add_mapping f m s w).0.1
  unfolding add_mapping put get_mapping_by_eni_id
  add_mapping-IsIndexed m s w v h g = record {
    no_empty = no_empty-index m.pci_address m.eni_id s.pci_map v.no_empty;
    leads = put-leads m s v h;
    covers = put-covers m s v g;
  }

  -- Removing a mapping keeps the index right.
  pub remove_mapping-IsIndexed :
      (eni : String) (s : Store) (w : W) → IsIndexed s → IsIndexed (remove_mapping f eni s w).0.1
  unfolding remove_mapping
  remove_mapping-IsIndexed eni s w v =
      elim (Option-cases (lookup eni s.mappings))
        as (λ x. IsIndexed (remove_mapping f eni s w).0.1) [
          | inl e ↦ rw e v
          | inr (m, e) ↦ rw e (take_out-IsIndexed m eni s v e)
        ]
