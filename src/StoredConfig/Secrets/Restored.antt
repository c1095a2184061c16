-- ===== src/StoredConfig/Secrets/Restored.antt =====
-- internal/configstate/storage.go: a redacted document that comes back unedited gets its tokens back.
use elastic_fruit_runner.Base.{
  ◌≡◌, refl, subst, true, false, ◌==◌, eq_iff, arith, none, some, Bool-cases, inl, inr,
}
use elastic_fruit_runner.Config.Node.{
  Kind, unset, document_node, sequence_node, mapping_node, scalar_node, alias_node, Node, node,
  Content, nil, cons, value_of, is_mapping, same_kind,
}
use elastic_fruit_runner.StoredConfig.Secrets.{
  masked, redact_node, redact_pairs, redact_all, copy_node, copy_content, current_value, is_mask,
  merge_secret_nodes, merge_pairs, merge_all,
}

-- No mapping of the document has a key twice.
unfoldable mutual
  pub KeysDiffer : Node → Type 0
  KeysDiffer (node kind tag value rest content) = elim (is_mapping kind) [
    | true ↦ PairsDiffer content
    | false ↦ AllKeysDiffer content
  ]

  pub PairsDiffer : Content → Type 0
  PairsDiffer nil = Unit {0}
  PairsDiffer (cons key nil) = Unit {0}
  PairsDiffer (cons key (cons value content)) =
      (current_value (value_of key) content ≡ none) × KeysDiffer value × PairsDiffer content

  pub AllKeysDiffer : Content → Type 0
  AllKeysDiffer nil = Unit {0}
  AllKeysDiffer (cons child content) = KeysDiffer child × AllKeysDiffer content

-- A lookup of each key in a mapping gives the value that stands beside it.
abbrev Finds : Content → Content → Type 0
Finds whole nil = Unit {0}
Finds whole (cons key nil) = Unit {0}
Finds whole (cons key (cons value content)) =
    (current_value (value_of key) whole ≡ some value) × Finds whole content

Finds-cons :
    (key value : Node) (whole content : Content)
    → Finds whole content
    → Finds (cons key (cons value whole)) content
unfolding current_value
Finds-cons key value whole nil h = tt
Finds-cons key value whole (cons k nil) h = tt
Finds-cons key value whole (cons k (cons v content)) h =
    (rw (h.0) refl, Finds-cons key value whole content h.1)

PairsDiffer-Finds : (content : Content) → PairsDiffer content → Finds content content
unfolding current_value KeysDiffer
PairsDiffer-Finds nil h = tt
PairsDiffer-Finds (cons key nil) h = tt
PairsDiffer-Finds (cons key (cons value content)) h = (
  rw (h.0) (ground (arith, eq_iff (value_of key) (value_of key))),
  Finds-cons key value content content (PairsDiffer-Finds content h.2),
)

mutual
  unfolding copy_node

  copy_node_same : (v : Node) → copy_node v ≡ v
  copy_node_same (node kind tag value rest content) = rw (copy_content_same content) refl

  copy_content_same : (c : Content) → copy_content c ≡ c
  copy_content_same nil = refl
  copy_content_same (cons child content) =
      rw (copy_node_same child) (rw (copy_content_same content) refl)

same_kind_self : (kind : Kind) → same_kind kind kind ≡ true
unfolding same_kind
same_kind_self unset = refl
same_kind_self document_node = refl
same_kind_self sequence_node = refl
same_kind_self mapping_node = refl
same_kind_self scalar_node = refl
same_kind_self alias_node = refl

masked-is_mask : (v : Node) → is_mask (value_of (masked v)) ≡ true
unfolding masked is_mask
masked-is_mask (node kind tag value rest content) = refl

mutual
  unfolding redact_node merge_secret_nodes KeysDiffer

  merge_node-redact : (v : Node) → KeysDiffer v → merge_secret_nodes (redact_node v) v ≡ v
  merge_node-redact (node kind tag value rest content) h = elim (Bool-cases (is_mapping kind)) [
    | inl pairs ↦
        let h' : PairsDiffer content =
          subst (λ b. elim b [ true ↦ PairsDiffer content | false ↦ AllKeysDiffer content ]) pairs
            h in
        rw pairs (
          rw (same_kind_self kind) (
            rw (merge_pairs-redact content content h' (PairsDiffer-Finds content h'))
              (rw pairs refl)))
    | inr children ↦
        let h' : AllKeysDiffer content =
          subst (λ b. elim b [ true ↦ PairsDiffer content | false ↦ AllKeysDiffer content ])
            children h in
        rw children (rw (same_kind_self kind) (rw (merge_all-redact content h') (rw children refl)))
  ]

  merge_pairs-redact :
      (whole content : Content)
      → PairsDiffer content
      → Finds whole content
      → merge_pairs (redact_pairs content) whole ≡ content
  merge_pairs-redact whole nil h found = refl
  merge_pairs-redact whole (cons key nil) h found = refl
  merge_pairs-redact whole (cons key (cons v content)) h found =
      let later = merge_pairs-redact whole content h.2 found.1 in
      elim (Bool-cases (value_of key == "pat_token")) [
        | inl token ↦
            rw (found.0) (rw token (rw (masked-is_mask v) (rw (copy_node_same v) (rw later refl))))
        | inr other ↦ rw (found.0) (rw other (rw (merge_node-redact v h.1) (rw later refl)))
      ]

  merge_all-redact :
      (content : Content) → AllKeysDiffer content → merge_all (redact_all content) content ≡ content
  merge_all-redact nil h = refl
  merge_all-redact (cons child content) h =
      rw (merge_node-redact child h.0) (rw (merge_all-redact content h.1) refl)

-- Merging a redacted document with the one it was made from gives that one back, when no mapping in
-- it has a key twice.
pub merge_secret_nodes-redact_node :
    (v : Node) → KeysDiffer v → merge_secret_nodes (redact_node v) v ≡ v
merge_secret_nodes-redact_node v h = merge_node-redact v h
