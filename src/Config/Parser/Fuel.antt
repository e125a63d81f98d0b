-- ===== src/Config/Parser/Fuel.antt =====
-- The parser ends: with `enough` fuel it never runs out, since each statement takes a token.
use ngxora.Base.{
  ℕ, zero, suc, ◌*◌, ◌≤◌, ◌<◌, Bool, true, false, List, [], ◌∷◌, ◌≡◌, ◌≢◌, refl, ap, arith, map,
  length, Text,
}
use ngxora.Config.Ast.{Node, directive, block, Nodes, nil, cons}
use ngxora.Config.Grammar.{Lex, lex, words, flatten_node, flatten_nodes}
use ngxora.Config.Lexer.{Token}
use ngxora.Config.Parser.{
  out_of_fuel, Result, ok, err, take_args, expect_r_brace, end_block, end_stmt, push_item,
  parse_items, parse_stmt, parse_tokens,
}
use ngxora.Config.Parser.Sound.{parse_stmt_sound}

pub length-map-lex : (ts : List Token) → length (map lex ts) ≡ length ts
length-map-lex [] = refl
length-map-lex (t ∷ ts) = ap suc (length-map-lex ts)

length-words : (ws : List Text) (rest : List Lex) → length rest ≤ length (words ws rest)
length-words [] rest = omega arith
length-words (w ∷ ws) rest = omega (arith, length-words ws rest)

mutual
  unfolding flatten_node flatten_nodes

  pub length-flatten_node :
      (n : Node) (rest : List Lex) → length rest < length (flatten_node n rest)
  length-flatten_node (directive name args) rest =
      omega (arith, length-words args (Lex.ending ∷ rest))
  length-flatten_node (block name args ns) rest = omega (
    arith,
    length-words args (Lex.opening ∷ flatten_nodes ns (Lex.closing ∷ rest)),
    length-flatten_nodes ns (Lex.closing ∷ rest),
  )

  length-flatten_nodes :
      (ns : Nodes) (rest : List Lex) → length rest ≤ length (flatten_nodes ns rest)
  length-flatten_nodes nil rest = omega arith
  length-flatten_nodes (cons n ns) rest =
      omega (arith, length-flatten_nodes ns rest, length-flatten_node n (flatten_nodes ns rest))

-- Each statement consumes at least one token.
pub parse_stmt-length :
    (f : ℕ) (ts : List Token) (n : Node) (rest : List Token)
    → parse_stmt f ts ≡ ok (n, rest)
    → length rest < length ts
parse_stmt-length f ts n rest h = omega (
  arith,
  ap length (parse_stmt_sound f ts n rest h),
  length-map-lex ts,
  length-map-lex rest,
  length-flatten_node n (map lex rest),
)

pub take_args-length : (ts : List Token) → length (take_args ts).1 ≤ length ts
unfolding take_args
take_args-length [] = omega arith
take_args-length (t ∷ ts) = ground (arith, take_args-length ts)

expect_r_brace-fuel : (ts : List Token) → expect_r_brace ts ≢ err out_of_fuel
unfolding expect_r_brace
expect_r_brace-fuel [] h = cc
expect_r_brace-fuel (t ∷ ts) h = ground arith

end_block-fuel :
    (name : Text) (args : List Text) (r : Result (Nodes × List Token))
    → r ≢ err out_of_fuel
    → end_block name args r ≢ err out_of_fuel
unfolding end_block
end_block-fuel name args (err e) ne h = ground arith
end_block-fuel name args (ok (ns, mid)) ne h = ground (arith, expect_r_brace-fuel mid)

end_stmt-fuel :
    (name : Text) (args : List Text) (items : List Token → Result (Nodes × List Token))
    (ts : List Token)
    → ((r : List Token) → length r < length ts → items r ≢ err out_of_fuel)
    → end_stmt name args items ts ≢ err out_of_fuel
unfolding end_stmt
end_stmt-fuel name args items [] i h = cc
end_stmt-fuel name args items (t ∷ ts) i h =
    ground (arith, end_block-fuel name args (items ts), i ts)

push_item-fuel :
    (stmt : Result (Node × List Token)) (items : List Token → Result (Nodes × List Token))
    → stmt ≢ err out_of_fuel
    → ((n : Node) (r : List Token) → stmt ≡ ok (n, r) → items r ≢ err out_of_fuel)
    → push_item stmt items ≢ err out_of_fuel
unfolding push_item
push_item-fuel (err e) items s i h = ground arith
push_item-fuel (ok (n, mid)) items s i h = ground (arith, i n mid refl)

mutual
  unfolding parse_items parse_stmt

  parse_items-fuel :
      (f : ℕ) (u : Bool) (ts : List Token)
      → 2 * length ts < f
      → parse_items f u ts ≢ err out_of_fuel
  parse_items-fuel zero u ts l h = absurd (omega arith)
  parse_items-fuel (suc f) u [] l h = ground arith
  parse_items-fuel (suc f) u (t ∷ ts) l h = ground (
    arith,
    push_item-fuel (parse_stmt f (t ∷ ts)) (λ r. parse_items f u r)
        (parse_stmt-fuel f (t ∷ ts) (omega arith) (omega arith))
        (λ n r e. parse_items-fuel f u r (omega (arith, parse_stmt-length f (t ∷ ts) n r e))),
  )

  parse_stmt-fuel :
      (f : ℕ) (ts : List Token)
      → 2 * length ts ≤ f
      → 0 < length ts
      → parse_stmt f ts ≢ err out_of_fuel
  parse_stmt-fuel zero ts l p h = absurd (omega arith)
  parse_stmt-fuel (suc f) [] l p h = cc
  parse_stmt-fuel (suc f) (t ∷ ts) l p h = ground (
    arith,
    end_stmt-fuel t.lexeme (take_args ts).0 (λ r. parse_items f true r) (take_args ts).1
        (λ r e. parse_items-fuel f true r (omega (arith, take_args-length ts))),
  )

-- The fuel that the parser starts with is enough for every list of tokens.
pub parse_tokens-ne-out_of_fuel : (ts : List Token) → parse_tokens ts ≢ err out_of_fuel
unfolding parse_tokens
parse_tokens-ne-out_of_fuel ts h =
    ground (arith, parse_items-fuel (suc (2 * length ts)) false ts (omega arith))
