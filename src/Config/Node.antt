-- ===== src/Config/Node.antt =====
-- yaml.Node as the code of config/cloud_yaml.go and internal/configstate sees it: the fields Kind,
-- Tag, Value and Content, and `rest` for the others (style, anchor, comments, position), which the
-- code copies and never reads. A nil pointer is never met: the parser gives none.
use elastic_fruit_runner.Base.{Bool, true, false, String}

pub data Kind : Type 0 where
  unset document_node sequence_node mapping_node scalar_node alias_node : Kind

-- The node, and the list of its children.
mutual
  pub data Node : Type 0 where
    node : Kind → String → String → String → Content → Node

  pub data Content : Type 0 where
    nil : Content
    cons : Node → Content → Content

abbrev pub kind_of : Node → Kind
kind_of (node kind tag value rest content) = kind

abbrev pub value_of : Node → String
value_of (node kind tag value rest content) = value

abbrev pub rest_of : Node → String
rest_of (node kind tag value rest content) = rest

abbrev pub content_of : Node → Content
content_of (node kind tag value rest content) = content

abbrev pub is_mapping : Kind → Bool
is_mapping mapping_node = true
is_mapping k = false

-- draft.Kind == current.Kind
unfoldable pub same_kind : Kind → Kind → Bool
same_kind unset unset = true
same_kind document_node document_node = true
same_kind sequence_node sequence_node = true
same_kind mapping_node mapping_node = true
same_kind scalar_node scalar_node = true
same_kind alias_node alias_node = true
same_kind k j = false
