-- ===== src/StoredConfig/Secrets/Hidden.antt =====
-- internal/configstate/service.go: what redactNode leaves tells nothing of the tokens.
use elastic_fruit_runner.Base.{◌≡◌, refl, true, false, String, ◌==◌}
use elastic_fruit_runner.Config.Node.{
  Kind, mapping_node, Node, node, Content, nil, cons, value_of, rest_of, is_mapping,
}
use elastic_fruit_runner.StoredConfig.Secrets.{masked, redact_node, redact_pairs, redact_all}

-- Two documents that differ in nothing but the values of `pat_token`, whatever kind of nodes these
-- are; their comments and positions are the same.
mutual
  pub data Alike : Node → Node → Type 0 where
    mapping :
        {tag value rest : String} {c d : Content}
        → AlikePairs c d
        → Alike (node mapping_node tag value rest c) (node mapping_node tag value rest d)
    other :
        {kind : Kind} {tag value rest : String} {c d : Content}
        → is_mapping kind ≡ false
        → AlikeAll c d
        → Alike (node kind tag value rest c) (node kind tag value rest d)

  pub data AlikePairs : Content → Content → Type 0 where
    no_pairs : AlikePairs nil nil
    lone_key : (key : Node) → AlikePairs (cons key nil) (cons key nil)
    secret :
        {key v w : Node} {c d : Content}
        → (value_of key == "pat_token") ≡ true
        → rest_of v ≡ rest_of w
        → AlikePairs c d
        → AlikePairs (cons key (cons v c)) (cons key (cons w d))
    plain :
        {key v w : Node} {c d : Content}
        → (value_of key == "pat_token") ≡ false
        → Alike v w
        → AlikePairs c d
        → AlikePairs (cons key (cons v c)) (cons key (cons w d))

  pub data AlikeAll : Content → Content → Type 0 where
    no_children : AlikeAll nil nil
    child : {v w : Node} {c d : Content} → Alike v w → AlikeAll c d → AlikeAll (cons v c) (cons w d)

masked_same : (v w : Node) → rest_of v ≡ rest_of w → masked v ≡ masked w
unfolding masked
masked_same (node k t v r c) (node k' t' v' r' c') e = rw e refl

mutual
  unfolding redact_node

  Alike-redact_node : {v w : Node} → Alike v w → redact_node v ≡ redact_node w
  Alike-redact_node (mapping pairs) = rw (Alike-redact_pairs pairs) refl
  Alike-redact_node (other plain_kind children) =
      rw plain_kind (rw (Alike-redact_all children) refl)

  Alike-redact_pairs : {c d : Content} → AlikePairs c d → redact_pairs c ≡ redact_pairs d
  Alike-redact_pairs no_pairs = refl
  Alike-redact_pairs (lone_key key) = refl
  Alike-redact_pairs (secret {v = v} {w = w} is_token same pairs) =
      rw is_token (rw (masked_same v w same) (rw (Alike-redact_pairs pairs) refl))
  Alike-redact_pairs (plain not_token alike pairs) =
      rw not_token (rw (Alike-redact_node alike) (rw (Alike-redact_pairs pairs) refl))

  Alike-redact_all : {c d : Content} → AlikeAll c d → redact_all c ≡ redact_all d
  Alike-redact_all no_children = refl
  Alike-redact_all (child alike children) =
      rw (Alike-redact_node alike) (rw (Alike-redact_all children) refl)

-- Documents that differ in nothing but the values of their `pat_token` keys, at any depth, redact to
-- the same document.
pub redact_node_hides : (v w : Node) → Alike v w → redact_node v ≡ redact_node w
redact_node_hides v w alike = Alike-redact_node alike
