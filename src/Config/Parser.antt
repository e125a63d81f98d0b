-- ===== src/Config/Parser.antt =====
-- crates/ngxora-config/src/parser.rs. The parser's state is the tokens from `pos` on. The `while`
-- loop of `parse_items` and the descent into blocks take fuel; `parse_tokens` gives enough.
pub mod Sound
pub mod Complete
pub mod Fuel
use ngxora.Base.{
  ℕ, zero, suc, ◌+◌, ◌*◌, Bool, true, false, List, [], ◌∷◌, if◌then◌else◌, length, Text,
}
use ngxora.Config.Ast.{Node, directive, block, Nodes, nil, cons}
use ngxora.Config.Lexer.{TokenType, l_brace, r_brace, semicolon, ident, Token, tokenize}

-- The messages of `ParseError`, and `out_of_fuel`, which the source does not have.
pub data ParseError : Type 0 where
  unexpected_eof : ParseError
  expected : TokenType → TokenType → ParseError
  unexpected_rbrace : ParseError
  eof_expected_rbrace : ParseError
  expected_ident : TokenType → ParseError
  expected_semicolon_or_lbrace : TokenType → ParseError
  eof_after_directive : ParseError
  out_of_fuel : ParseError

pub data Result {ℓ} (T : Type ℓ) : Type ℓ where
  err : ParseError → Result T
  ok : T → Result T

-- The `?` of a chain of calls.
module _ {ℓ κ} {T : Type ℓ} {U : Type κ} where
  infixl 5 ◌>>=◌
  abbrev pub ◌>>=◌ : Result T → (T → Result U) → Result U
  err message >>= next = err message
  ok item >>= next = next item

-- The loop over the arguments of a directive.
pub take_args : List Token → List Text × List Token
take_args [] = ([], [])
take_args (t ∷ ts) =
    let (args, rest) = take_args ts in
    elim t.kind [ ident ↦ (t.lexeme ∷ args, rest) | _ ↦ ([], t ∷ ts) ]

expect_r_brace : List Token → Result (List Token)
expect_r_brace [] = err unexpected_eof
expect_r_brace (t ∷ ts) = elim t.kind [ r_brace ↦ ok ts | kind ↦ err (expected r_brace kind) ]

-- What follows `{`, on the outcome of `self.parse_items(true)`.
end_block : Text → List Text → Result (Nodes × List Token) → Result (Node × List Token)
unfolding expect_r_brace
end_block name args items = do
  (children, rest) ← items
  rest' ← expect_r_brace rest
  ok (block name args children, rest')

-- The `match` behind the arguments; `items` is the call `self.parse_items(true)`.
pub end_stmt :
    Text
    → List Text
    → (List Token → Result (Nodes × List Token))
    → List Token
    → Result (Node × List Token)
unfolding end_block
end_stmt name args items [] = err eof_after_directive
end_stmt name args items (t ∷ ts) = elim t.kind [
  | semicolon ↦ ok (directive name args, ts)
  | l_brace ↦ end_block name args (items ts)
  | kind ↦ err (expected_semicolon_or_lbrace kind)
]

-- `items.push(self.parse_stmt()?)` and the rounds of the loop behind it.
push_item :
    Result (Node × List Token)
    → (List Token → Result (Nodes × List Token))
    → Result (Nodes × List Token)
push_item stmt items = do
  (node, rest) ← stmt
  (nodes, rest') ← items rest
  ok (cons node nodes, rest')

unfoldable mutual
  unfolding take_args end_stmt push_item

  pub parse_items : ℕ → Bool → List Token → Result (Nodes × List Token)
  parse_items zero until_rbrace ts = err out_of_fuel
  parse_items (suc f) until_rbrace [] =
      if until_rbrace then err eof_expected_rbrace else ok (nil, [])
  parse_items (suc f) until_rbrace (t ∷ ts) = elim t.kind [
    | r_brace ↦ if until_rbrace then ok (nil, t ∷ ts) else err unexpected_rbrace
    | _ ↦ push_item (parse_stmt f (t ∷ ts)) (λ rest. parse_items f until_rbrace rest)
  ]

  pub parse_stmt : ℕ → List Token → Result (Node × List Token)
  parse_stmt zero ts = err out_of_fuel
  parse_stmt (suc f) [] = err unexpected_eof
  parse_stmt (suc f) (t ∷ ts) = elim t.kind [
    | ident ↦
        let (args, rest) = take_args ts in end_stmt t.lexeme args (λ r. parse_items f true r) rest
    | kind ↦ err (expected_ident kind)
  ]

abbrev pub enough : List Token → ℕ
enough ts = suc (2 * length ts)

-- `Ast::parse_tokens`
unfoldable pub parse_tokens : List Token → Result Nodes
parse_tokens ts = do (items, _) ← parse_items (enough ts) false ts; ok items

-- `Ast::parse_config`
unfoldable pub parse_config : Text → Result Nodes
unfolding parse_tokens parse_items tokenize
parse_config input = parse_tokens (tokenize input)
