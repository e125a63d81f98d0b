-- ===== src/Config/RoundTrip.antt =====
-- The lexer and the parser together, `Ast::parse_config`, against the grammar.
use ngxora.Base.{false, List, [], ◌∷◌, ◌++◌, ◌≡◌, ◌↔◌, refl, Text, sym, All, subst}
use ngxora.Config.Ast.{Node, directive, block, Nodes, nil, cons}
use ngxora.Config.Grammar.{Lex, word, opening, closing, ending, words, flatten_node, flatten_nodes}
use ngxora.Config.Lexer.{tokenize, is_whitespace, punct_token_type, l_brace, r_brace, semicolon}
use ngxora.Config.Lexer.Steps.{is_word}
use ngxora.Config.Lexer.Spelling.{
  Spells, finish, blank, comment, last_comment, punct, a_word, IsWord, tokenize_iff,
}
use ngxora.Config.Parser.{ok, parse_config}
use ngxora.Config.Parser.Complete.{parse_tokens_iff}

-- Parsing a text succeeds with a tree if and only if the text spells the tree's lexemes: the parser
-- is sound and complete for the grammar.
pub parse_config_iff :
    (s : Text) (ns : Nodes) → (parse_config s ≡ ok ns) ↔ Spells s (flatten_nodes ns [])
unfolding parse_config
parse_config_iff s ns = (
  λ h. (tokenize_iff s (flatten_nodes ns [])).0 ((parse_tokens_iff (tokenize s) ns).0 h),
  λ r. (parse_tokens_iff (tokenize s) ns).1 ((tokenize_iff s (flatten_nodes ns [])).1 r),
)

-- A tree in a plain layout: a space behind each word, and no other space.
print_args : List Text → Text → Text
print_args [] rest = rest
print_args (w ∷ ws) rest = w ++ (b' ' ∷ print_args ws rest)

mutual
  unfolding print_args

  print_node : Node → Text → Text
  print_node (directive name args) rest = name ++ (b' ' ∷ print_args args (b';' ∷ rest))
  print_node (block name args children) rest =
      name ++ (b' ' ∷ print_args args (b'{' ∷ print_nodes children (b'}' ∷ rest)))

  print_nodes : Nodes → Text → Text
  print_nodes nil rest = rest
  print_nodes (cons n ns) rest = print_node n (print_nodes ns rest)

unfoldable pub print : Nodes → Text
unfolding print_nodes
print ns = print_nodes ns []

abbrev WordLex : Lex → Type 0
WordLex (word w) = IsWord w
WordLex _ = Unit

-- Every word that a text spells is a word.
Spells-words : {s : Text} {ls : List Lex} → Spells s ls → All WordLex ls
Spells-words finish = tt
Spells-words (blank c h r) = Spells-words r
Spells-words (comment body a e r) = Spells-words r
Spells-words (last_comment a) = tt
Spells-words (punct c l_brace h e r) = subst (All WordLex) (sym e) (tt, Spells-words r)
Spells-words (punct c k h e r) = subst (All WordLex) (sym e) (tt, Spells-words r)
Spells-words (a_word w v d e r) = (v, Spells-words r)

space_not_word : is_word b' ' ≡ false
unfolding is_word is_whitespace punct_token_type
space_not_word = refl

-- Each piece of the printed text spells its items.
Spells-word :
    {s : Text} {ls : List Lex} (w : Text)
    → IsWord w
    → Spells s ls
    → Spells (w ++ (b' ' ∷ s)) (word w ∷ ls)
unfolding is_whitespace
Spells-word w v r = a_word w v space_not_word refl (blank b' ' refl r)

Spells-args :
    {s : Text} {ls : List Lex} (ws : List Text)
    → All WordLex (words ws ls)
    → Spells s ls
    → Spells (print_args ws s) (words ws ls)
unfolding print_args
Spells-args [] a r = r
Spells-args (w ∷ ws) (v, a) r = Spells-word w v (Spells-args ws a r)

All-words : (ws : List Text) (ls : List Lex) → All WordLex (words ws ls) → All WordLex ls
All-words [] ls a = a
All-words (w ∷ ws) ls a = All-words ws ls a.1

mutual
  unfolding flatten_node

  All-node : (n : Node) (ls : List Lex) → All WordLex (flatten_node n ls) → All WordLex ls
  All-node (directive name args) ls a = (All-words args (ending ∷ ls) a.1).1
  All-node (block name args ns) ls a =
      (All-nodes ns (closing ∷ ls)
        (All-words args (opening ∷ flatten_nodes ns (closing ∷ ls)) a.1).1).1

  All-nodes : (ns : Nodes) (ls : List Lex) → All WordLex (flatten_nodes ns ls) → All WordLex ls
  All-nodes nil ls a = a
  All-nodes (cons n ns) ls a = All-nodes ns ls (All-node n (flatten_nodes ns ls) a)

mutual
  unfolding flatten_node print_node punct_token_type

  Spells-node :
      {s : Text} {ls : List Lex} (n : Node)
      → All WordLex (flatten_node n ls)
      → Spells s ls
      → Spells (print_node n s) (flatten_node n ls)
  Spells-node (directive name args) a r =
      Spells-word name a.0 (Spells-args args a.1 (punct b';' semicolon refl refl r))
  Spells-node {ls} (block name args ns) a r = Spells-word name a.0 (
      Spells-args args a.1 (
        punct b'{' l_brace refl refl (
          Spells-nodes ns (All-words args (opening ∷ flatten_nodes ns (closing ∷ ls)) a.1).1
            (punct b'}' r_brace refl refl r))))

  Spells-nodes :
      {s : Text} {ls : List Lex} (ns : Nodes)
      → All WordLex (flatten_nodes ns ls)
      → Spells s ls
      → Spells (print_nodes ns s) (flatten_nodes ns ls)
  Spells-nodes nil a r = r
  Spells-nodes {ls} (cons n ns) a r =
      Spells-node n a (Spells-nodes ns (All-node n (flatten_nodes ns ls) a) r)

-- A tree that some text parses to is parsed from its own printed form too.
pub parse_config-print :
    (s : Text) (ns : Nodes) → parse_config s ≡ ok ns → parse_config (print ns) ≡ ok ns
unfolding print
parse_config-print s ns h =
    let r = (parse_config_iff s ns).0 h in
    (parse_config_iff (print_nodes ns []) ns).1 (Spells-nodes ns (Spells-words r) finish)
