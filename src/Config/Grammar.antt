-- ===== src/Config/Grammar.antt =====
-- The grammar of configuration files, independent of the lexer and the parser: the lexical items
-- of a syntax tree in order, and what the parser can see of a token.
use ngxora.Base.{List, [], ◌∷◌, Text}
use ngxora.Config.Ast.{Node, directive, block, Nodes, nil, cons}
use ngxora.Config.Lexer.{l_brace, r_brace, semicolon, ident, Token}

pub data Lex : Type 0 where
  word : Text → Lex
  opening closing ending : Lex

abbrev pub lex : Token → Lex
lex t = elim t.kind [
  | ident ↦ word t.lexeme
  | l_brace ↦ opening
  | r_brace ↦ closing
  | semicolon ↦ ending
]

abbrev pub words : List Text → List Lex → List Lex
words [] rest = rest
words (w ∷ ws) rest = word w ∷ words ws rest

-- The items of a statement, in front of `rest`.
unfoldable mutual
  pub flatten_node : Node → List Lex → List Lex
  flatten_node (directive name args) rest = word name ∷ words args (ending ∷ rest)
  flatten_node (block name args children) rest =
      word name ∷ words args (opening ∷ flatten_nodes children (closing ∷ rest))

  pub flatten_nodes : Nodes → List Lex → List Lex
  flatten_nodes nil rest = rest
  flatten_nodes (cons n ns) rest = flatten_node n (flatten_nodes ns rest)
