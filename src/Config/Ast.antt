-- ===== src/Config/Ast.antt =====
-- crates/ngxora-config/src/ast.rs. The fields of `Directive` and `Block` stand in the
-- constructors of `Node`, and `Vec<Node>` is the list type of the block.
use ngxora.Base.{List, Text}

mutual
  pub data Node : Type 0 where
    directive : Text → List Text → Node
    block : Text → List Text → Nodes → Node

  pub data Nodes : Type 0 where
    nil : Nodes
    cons : Node → Nodes → Nodes
