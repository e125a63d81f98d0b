-- ===== src/Config/Parser/Sound.antt =====
-- Whatever the parser returns spells exactly the tokens that it has consumed.
use ngxora.Base.{
  ℕ, zero, suc, ◌*◌, Bool, true, false, List, [], ◌∷◌, ◌≡◌, refl, arith, map, length, Text,
}
use ngxora.Config.Ast.{Node, block, Nodes, cons}
use ngxora.Config.Grammar.{word, opening, closing, lex, words, flatten_node, flatten_nodes}
use ngxora.Config.Lexer.{Token}
use ngxora.Config.Parser.{
  Result, ok, err, ◌>>=◌, take_args, expect_r_brace, end_block, end_stmt, push_item, parse_items,
  parse_stmt, parse_tokens,
}

-- A chain that succeeds has passed its first call.
module _ {ℓ κ} {T : Type ℓ} {U : Type κ} where
  pub >>=-ok :
      (first : Result T) (next : T → Result U) {result : U}
      → (first >>= next) ≡ ok result
      → (item : T) × (first ≡ ok item) × (next item ≡ ok result)
  >>=-ok (err message) next h = cc
  >>=-ok (ok item) next h = (item, refl, h)

take_args_sound : (ts : List Token) → map lex ts ≡ words (take_args ts).0 (map lex (take_args ts).1)
unfolding take_args
take_args_sound [] = refl
take_args_sound (t ∷ ts) = ground (arith, take_args_sound ts)

expect_r_brace_sound :
    (ts rest : List Token) → expect_r_brace ts ≡ ok rest → map lex ts ≡ closing ∷ map lex rest
unfolding expect_r_brace
expect_r_brace_sound [] rest h = cc
expect_r_brace_sound (t ∷ ts) rest h = ground arith

abbrev pub ItemsSound : List Token → Result (Nodes × List Token) → Type 0
ItemsSound ts r =
    (ns : Nodes) (rest : List Token)
    → r ≡ ok (ns, rest)
    → map lex ts ≡ flatten_nodes ns (map lex rest)

end_block_sound :
    (name : Text) (args : List Text) (ts : List Token) (r : Result (Nodes × List Token)) (n : Node)
    (rest : List Token)
    → ItemsSound ts r
    → end_block name args r ≡ ok (n, rest)
    → word name ∷ words args (opening ∷ map lex ts) ≡ flatten_node n (map lex rest)
unfolding end_block flatten_node
end_block_sound name args ts (err e) n rest s h = cc
end_block_sound name args ts (ok (ns, mid)) n rest s h =
    let (r, e, h') = >>=-ok (expect_r_brace mid) (λ r. ok (block name args ns, r)) h in
    rw (s ns mid refl, expect_r_brace_sound mid r e) (ground arith)

end_stmt_sound :
    (name : Text) (args : List Text) (items : List Token → Result (Nodes × List Token))
    (ts : List Token) (n : Node) (rest : List Token)
    → ((r : List Token) → ItemsSound r (items r))
    → end_stmt name args items ts ≡ ok (n, rest)
    → word name ∷ words args (map lex ts) ≡ flatten_node n (map lex rest)
unfolding end_stmt flatten_node
end_stmt_sound name args items [] n rest s h = cc
end_stmt_sound name args items (t ∷ ts) n rest s h =
    ground (arith, end_block_sound name args ts (items ts) n rest (s ts))

push_item_sound :
    (ts : List Token) (stmt : Result (Node × List Token))
    (items : List Token → Result (Nodes × List Token)) (ns : Nodes) (rest : List Token)
    → ((n : Node) (r : List Token) → stmt ≡ ok (n, r) → map lex ts ≡ flatten_node n (map lex r))
    → ((r : List Token) → ItemsSound r (items r))
    → push_item stmt items ≡ ok (ns, rest)
    → map lex ts ≡ flatten_nodes ns (map lex rest)
unfolding push_item flatten_nodes
push_item_sound ts (err e) items ns rest s i h = cc
push_item_sound ts (ok (n, mid)) items ns rest s i h =
    let ((ns', rest'), e, h') =
      >>=-ok (items mid) (λ (r : Nodes × List Token). ok (cons n r.0, r.1)) h in
    rw (s n mid refl, i mid ns' rest' e) (ground arith)

mutual
  unfolding parse_items parse_stmt flatten_nodes

  pub parse_items_sound : (f : ℕ) (u : Bool) (ts : List Token) → ItemsSound ts (parse_items f u ts)
  parse_items_sound zero u ts ns rest h = cc
  parse_items_sound (suc f) u [] ns rest h = ground arith
  parse_items_sound (suc f) u (t ∷ ts) ns rest h = ground (
    arith,
    push_item_sound (t ∷ ts) (parse_stmt f (t ∷ ts)) (λ r. parse_items f u r) ns rest
        (λ n r. parse_stmt_sound f (t ∷ ts) n r) (λ r. parse_items_sound f u r),
  )

  pub parse_stmt_sound :
      (f : ℕ) (ts : List Token) (n : Node) (rest : List Token)
      → parse_stmt f ts ≡ ok (n, rest)
      → map lex ts ≡ flatten_node n (map lex rest)
  parse_stmt_sound zero ts n rest h = cc
  parse_stmt_sound (suc f) [] n rest h = cc
  parse_stmt_sound (suc f) (t ∷ ts) n rest h = ground (
    arith,
    take_args_sound ts,
    end_stmt_sound t.lexeme (take_args ts).0 (λ r. parse_items f true r) (take_args ts).1 n rest
        (λ r. parse_items_sound f true r),
  )

push_item_rest :
    (stmt : Result (Node × List Token)) (items : List Token → Result (Nodes × List Token))
    (ns : Nodes) (rest : List Token)
    → ((r : List Token) (ns' : Nodes) → items r ≡ ok (ns', rest) → rest ≡ [])
    → push_item stmt items ≡ ok (ns, rest)
    → rest ≡ []
unfolding push_item
push_item_rest (err e) items ns rest i h = cc
push_item_rest (ok (n, mid)) items ns rest i h =
    let ((ns', rest'), e, h') =
      >>=-ok (items mid) (λ (r : Nodes × List Token). ok (cons n r.0, r.1)) h in
    ground (arith, i mid ns')

-- At the top level the loop ends only with the tokens.
parse_items_rest :
    (f : ℕ) (ts : List Token) (ns : Nodes) (rest : List Token)
    → parse_items f false ts ≡ ok (ns, rest)
    → rest ≡ []
unfolding parse_items
parse_items_rest zero ts ns rest h = cc
parse_items_rest (suc f) [] ns rest h = ground arith
parse_items_rest (suc f) (t ∷ ts) ns rest h = ground (
  arith,
  push_item_rest (parse_stmt f (t ∷ ts)) (λ r. parse_items f false r) ns rest
      (λ r ns' e. parse_items_rest f r ns' rest e),
)

-- An accepted token sequence is the one that its syntax tree spells.
pub parse_tokens_sound :
    (ts : List Token) (ns : Nodes) → parse_tokens ts ≡ ok ns → map lex ts ≡ flatten_nodes ns []
unfolding parse_tokens
parse_tokens_sound ts ns h =
    let ((ns', rest), e, h') =
      >>=-ok (parse_items (suc (2 * length ts)) false ts) (λ (r : Nodes × List Token). ok r.0) h in
    ground (
      arith,
      parse_items_sound (suc (2 * length ts)) false ts ns' rest e,
      parse_items_rest (suc (2 * length ts)) ts ns' rest e,
    )
