-- ===== src/Schema/Section/Nodes.antt =====
-- The lists of patterns in the tree of toString.
use ndn_multi_party_signatur.Prelude.{
  ◌<◌, ◌≡◌, ◌≢◌, refl, ◌∙◌, false, none, List, [], ◌∷◌, ◌++◌, length, ◌==◌, Text, Result, ok, ◌>>=◌,
  arith,
}
use mathlib.Core.List.{append_assoc, append-nil}
use ndn_multi_party_signatur.Ndn.{NdnName}
use ndn_multi_party_signatur.Schema.Pattern.{WildCardName, of_string}
use ndn_multi_party_signatur.Schema.Section.{
  ConfigKey, key_text, PropertyTrees, patterns_node, add_patterns, read_patterns, read_section,
}

module _ {Tree Name : Type 0} (trees : PropertyTrees Tree) ⦃N : NdnName Name⦄
    (to_uri : Name → Text) where
  -- Each pattern of a list, read from its URI.
  unfoldable pub reread : List (WildCardName Name) → Result (List (WildCardName Name))
  reread [] = ok []
  reread (p ∷ ps) = do q ← of_string (to_uri p.name); qs ← reread ps; ok (q ∷ qs)

  -- The children that the loop adds.
  nodes : List (WildCardName Name) → List (Text × Tree)
  nodes [] = []
  nodes (p ∷ ps) = ([], trees.put_value trees.empty_tree (to_uri p.name)) ∷ nodes ps

  children-patterns_node :
      (node : Tree) (ps : List (WildCardName Name))
      → trees.children (patterns_node trees to_uri node ps) ≡ trees.children node ++ nodes ps
  unfolding patterns_node nodes
  children-patterns_node node [] = rw append-nil refl
  children-patterns_node node (p ∷ ps) =
      let leaf = trees.put_value trees.empty_tree (to_uri p.name) in
      rw
        (
          children-patterns_node (trees.push_back node [] leaf) ps,
          trees.children-push_back node [] leaf,
          append_assoc,
        )
        refl

  read_patterns-nodes : (ps : List (WildCardName Name)) → read_patterns trees (nodes ps) ≡ reread ps
  unfolding read_patterns nodes reread
  read_patterns-nodes [] = refl
  read_patterns-nodes (p ∷ ps) =
      rw (trees.value-put_value trees.empty_tree (to_uri p.name), read_patterns-nodes ps) refl

  add_patterns-some :
      (content : Tree) (k : ConfigKey) (p : WildCardName Name) (ps : List (WildCardName Name))
      → add_patterns trees to_uri content k (p ∷ ps)
        ≡ trees.add_child content
            (key_text k)
            (patterns_node trees to_uri trees.empty_tree (p ∷ ps))
  unfolding add_patterns
  add_patterns-some content k p ps =
      let filled : (length (p ∷ ps) == 0) ≡ false = ground arith in rw (add_patterns, filled) refl

  pub get_child-add_patterns :
      (content : Tree) (j k : ConfigKey) (ps : List (WildCardName Name))
      → j ≢ k
      → trees.get_child_optional (add_patterns trees to_uri content j ps) (key_text k)
        ≡ trees.get_child_optional content (key_text k)
  unfolding add_patterns
  get_child-add_patterns content j k [] ne = refl
  get_child-add_patterns content j k (p ∷ ps) ne =
      rw (add_patterns-some content j p ps) (trees.get_child-other content j k _ ne)

  pub read_section-add_patterns :
      (content : Tree) (k : ConfigKey) (ps : List (WildCardName Name))
      → trees.get_child_optional content (key_text k) ≡ none
      → read_section trees
          (trees.get_child_optional (add_patterns trees to_uri content k ps) (key_text k))
        ≡ reread ps
  unfolding add_patterns read_section reread
  read_section-add_patterns content k [] h = rw h refl
  read_section-add_patterns content k (p ∷ ps) h =
      let added =
        trees.get_child-added content k (patterns_node trees to_uri trees.empty_tree (p ∷ ps)) h in
      let held : trees.children (patterns_node trees to_uri trees.empty_tree (p ∷ ps))
          ≡ nodes (p ∷ ps) =
        children-patterns_node trees.empty_tree (p ∷ ps) ∙ rw trees.children-empty refl in
      rw (add_patterns-some content k p ps, added, held) (read_patterns-nodes (p ∷ ps))

  pub children-add_patterns :
      (content : Tree) (k : ConfigKey) (ps : List (WildCardName Name))
      → 0 < length (trees.children content)
      → 0 < length (trees.children (add_patterns trees to_uri content k ps))
  unfolding add_patterns
  children-add_patterns content k [] h = h
  children-add_patterns content k (p ∷ ps) h =
      rw (add_patterns-some content k p ps) (trees.length-children-add content (key_text k) _)
